-- ===== src/Configuration/Semver/Printed.antt =====
-- Versions that are printed in the usual way are read back by semver/semver.go.
use Prim.Native.Char.{Char, code}
use cfdev.Common.{
  ℕ, zero, suc, ◌^◌, ◌<◌, String, ◌<>◌, ◌≡◌, ◌≢◌, refl, sym, ap, ◌∙◌, inl, inr, true, false, some,
  List, [], ◌∷◌, ◌++◌, ◌=s◌, ◌==◌, eq_iff, arith, Bool-cases,
}
use text.Mathlib.TextLemmas.{cons-append, nil-append}
use cfdev.Common.Decimal.{show_nat}
use cfdev.Common.Decimal.Parsing.{parse_int-show_nat, Free-show_nat, codes-show_nat_ne}
use cfdev.Common.Int.{pos}
use cfdev.Common.Text.{codes}
use cfdev.Common.Text.Joined.{codes-append}
use cfdev.Common.Text.Fields.{Free}
use cfdev.Configuration.Semver.{
  Version, split_n, first, build_text, with_build, with_minor, with_major, new,
}

split_n-cons :
    (sep n : ℕ) (w s : String) (c : Char)
    → Free (λ d. d == sep) w
    → (code c == sep) ≡ true
    → split_n sep (suc n) (w <> String.◌∷◌ c s) ≡ w ∷ split_n sep n s
unfolding split_n
split_n-cons sep n String.[] s c h e = rw (nil-append (String.◌∷◌ c s), e, split_n) refl
split_n-cons sep n (String.◌∷◌ d w) s c h e =
    rw (cons-append d w (String.◌∷◌ c s), h.0, split_n, split_n-cons sep n w s c h.1 e) refl

-- A piece is cut off at the separator that follows it.
split_n-append :
    (sep n : ℕ) (w s : String) (c : Char)
    → Free (λ d. d == sep) w
    → (code c == sep) ≡ true
    → split_n sep (suc n) (w <> (String.◌∷◌ c "" <> s)) ≡ w ∷ split_n sep n s
split_n-append sep n w s c h e =
    let joined : String.◌∷◌ c "" <> s ≡ String.◌∷◌ c s =
      cons-append c "" s ∙ ap (λ (t : String). String.◌∷◌ c t) (nil-append s) in
    rw joined (split_n-cons sep n w s c h e)

split_n_whole : (sep n : ℕ) (w : String) → Free (λ d. d == sep) w → split_n sep n w ≡ w ∷ []
unfolding split_n
split_n_whole sep zero w h = refl
split_n_whole sep (suc n) String.[] h = refl
split_n_whole sep (suc n) (String.◌∷◌ d w) h =
    rw (h.0, split_n, split_n_whole sep (suc n) w h.1) refl

-- The text of a version.
abbrev pub printed : ℕ → ℕ → ℕ → String
printed a b c = show_nat a <> ("." <> (show_nat b <> ("." <> show_nat c)))

no_dot : (n : ℕ) → Free (λ d. d == b'.') (show_nat n)
no_dot n = Free-show_nat (λ d. d == b'.') n (λ c h. ground (arith, h))

no_dash : (n : ℕ) → Free (λ d. d == b'-') (show_nat n)
no_dash n = Free-show_nat (λ d. d == b'-') n (λ c h. ground (arith, h))

pieces : (a b c : ℕ) → split_n b'.' 2 (printed a b c) ≡ show_nat a ∷ show_nat b ∷ show_nat c ∷ []
pieces a b c =
    let dot : Char = Char.char 46 tt in
    split_n-append b'.' 1 (show_nat a) (show_nat b <> ("." <> show_nat c)) dot (no_dot a) refl
    ∙ ap (λ ps. show_nat a ∷ ps)
        (split_n-append b'.' 0 (show_nat b) (show_nat c) dot (no_dot b) refl
          ∙ ap (λ ps. show_nat b ∷ ps) (unfold split_n in refl))

build_text-show_nat : (c : ℕ) → build_text (show_nat c) ≡ show_nat c
unfolding build_text first
build_text-show_nat c = ap first (split_n_whole b'-' 1 (show_nat c) (no_dash c))

printed_ne : (a b c : ℕ) → (printed a b c =s "") ≡ false
printed_ne a b c = elim (Bool-cases (printed a b c =s "")) [
  | inr e ↦ e
  | inl e ↦ absurd (
      head_ne (codes (show_nat a)) _ (codes-show_nat_ne a)
        (sym (codes-append (show_nat a) _) ∙ ap codes ((eq_iff (printed a b c) "").0 e)))
]
  where
    head_ne : (xs ys : List ℕ) → xs ≢ [] → (xs ++ ys) ≢ []
    head_ne [] ys ne f = ne refl
    head_ne (x ∷ xs) ys ne f = cc f

module _ (v : String) (a b c : ℕ) (ha : a < 2 ^ 63) (hb : b < 2 ^ 63) (hc : c < 2 ^ 63) where
  abbrev read : Version
  read = record { major = pos a; minor = pos b; build = pos c; original = v }

  builds : with_build v (pos a) (pos b) (show_nat c ∷ []) ≡ some read
  unfolding with_build
  builds = rw (with_build, build_text-show_nat c, parse_int-show_nat c hc) refl

  minors : with_minor v (pos a) (show_nat b ∷ show_nat c ∷ []) ≡ some read
  unfolding with_minor
  minors = rw (with_minor, parse_int-show_nat b hb) builds

  majors : (v =s "") ≡ false → with_major v (show_nat a ∷ show_nat b ∷ show_nat c ∷ []) ≡ some read
  unfolding with_major
  majors e = rw (e, with_major, parse_int-show_nat a ha) minors

-- `New` reads the text of a version, three numbers below 2 ^ 63 with dots between them, as these
-- numbers, and keeps the text.
pub new-printed :
    (a b c : ℕ)
    → a < 2 ^ 63
    → b < 2 ^ 63
    → c < 2 ^ 63
    → new (printed a b c)
      ≡ some (record { major = pos a; minor = pos b; build = pos c; original = printed a b c })
unfolding new
new-printed a b c ha hb hc =
    ap (with_major (printed a b c)) (pieces a b c)
    ∙ majors (printed a b c) a b c ha hb hc (printed_ne a b c)

-- ===== src/Cfdevd/Serving/Binding.antt =====
-- Which sockets the privileged helper of cfdevd hands out.
use cfdev.Common.{
  ◌≡◌, refl, ◌⊎◌, inl, inr, ℕ, true, Option, none, some, List, [], ◌∷◌, arith, leb, length,
  Bool-cases, All,
}
use cfdev.Errors.{Error}
use cfdev.Runtime.{Result, ok, err}
use cfdev.Cfdevd.{
  Bytes, drop, Command, bind, uninstall, remove_ip_alias, add_ip_alias, unimplemented, Handshake,
  marshal_handshake, unmarshal_command,
}
use cfdev.Cfdevd.Serving.{
  Host, Reply, status, same_bytes, is_ip_allowed, bosh_ip, gorouter_ip, execute, answer_command,
  greeting, serve,
}

same_bytes_eq : (xs ys : Bytes) → same_bytes xs ys ≡ true → xs ≡ ys
unfolding same_bytes
same_bytes_eq [] [] h = refl
same_bytes_eq [] (y ∷ ys) h = ground arith
same_bytes_eq (x ∷ xs) [] h = ground arith
same_bytes_eq (x ∷ xs) (y ∷ ys) h = ground (arith, same_bytes_eq xs ys)

is_ip_allowed_lem : (ip : Bytes) → is_ip_allowed ip ≡ true → (bosh_ip ≡ ip) ⊎ (gorouter_ip ≡ ip)
unfolding is_ip_allowed
is_ip_allowed_lem ip h = elim (Bool-cases (same_bytes bosh_ip ip)) [
  | inl e ↦ inl (same_bytes_eq bosh_ip ip e)
  | inr e ↦ inr (same_bytes_eq gorouter_ip ip (rw e at h))
]

-- A reply carries no socket, or answers a request to bind one of the two addresses of CF Dev.
abbrev pub IsEntitled : Result Command → Reply → Type 0
IsEntitled c reply =
    (reply.rights ≡ none)
    ⊎ ((ip : Bytes) × (port : ℕ) × (c ≡ ok (bind ip port)) × ((bosh_ip ≡ ip) ⊎ (gorouter_ip ≡ ip)))

status-rights : (e : Option Error) → (status e).rights ≡ none
unfolding status
status-rights none = refl
status-rights (some e) = refl

module _ (y : Host) where
  execute-IsEntitled : (c : Command) (n : ℕ) → IsEntitled (ok c) (execute y c n)
  unfolding execute
  execute-IsEntitled (bind ip port) n = elim (Bool-cases (is_ip_allowed ip)) [
    | inl e ↦ inr (ip, port, refl, is_ip_allowed_lem ip e)
    | inr e ↦ inl (rw (e, execute) refl)
  ]
  execute-IsEntitled uninstall n = inl (status-rights _)
  execute-IsEntitled remove_ip_alias n = inl (status-rights _)
  execute-IsEntitled add_ip_alias n = inl (status-rights _)
  execute-IsEntitled (unimplemented instr) n = inl refl

  answer_command-IsEntitled :
      (c : Result Command) (n : ℕ) → All (IsEntitled c) (answer_command y c n)
  unfolding answer_command
  answer_command-IsEntitled (err e) n = tt
  answer_command-IsEntitled (ok c) n = (execute-IsEntitled c n, tt)

  greeting-IsEntitled :
      (hello : Option Bytes) (c : Result Command) (rest : List Reply)
      → All (IsEntitled c) rest
      → All (IsEntitled c) (greeting y hello rest)
  unfolding greeting
  greeting-IsEntitled none c rest h = tt
  greeting-IsEntitled (some hello) c rest h = (inl refl, h)

-- Whatever bytes a client sends, and whatever the host answers, the helper hands out a socket only
-- to a command that asks to bind the address of the BOSH director or of the router.
pub serve-IsEntitled :
    (y : Host) (own : Handshake) (input : Bytes) (n : ℕ)
    → All (IsEntitled (unmarshal_command (drop 49 input))) (serve y own input n)
unfolding serve
serve-IsEntitled y own input n = elim (Bool-cases (leb 49 (length input))) [
  | inr short ↦ rw (short, serve) tt
  | inl enough ↦
      rw (enough, serve)
        (greeting-IsEntitled y (marshal_handshake own) (unmarshal_command (drop 49 input)) _
          (answer_command-IsEntitled y (unmarshal_command (drop 49 input)) n))
]

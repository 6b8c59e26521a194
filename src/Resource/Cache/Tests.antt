-- ===== src/Resource/Cache/Tests.antt =====
-- A whole synchronisation at a concrete server, and the theorem on it.
use cfdev.Common.{◌≡◌, ◌≢◌, refl, String, true, false, ◌=s◌, none, [], ◌∷◌, All, arith, eq_iff}
use cfdev.Errors.{plain}
use cfdev.Resource.{Item}
use cfdev.Resource.Progress
use cfdev.Resource.Retry.{retry, retryable}
use cfdev.Common.Dict.{get, put, erase}
use cfdev.Resource.Storage.{System, State, Cache, response, cannot_open, target, is_local}
use cfdev.Resource.Cache.{download, sync, sync_items, download_http}
use cfdev.Resource.Cache.Verified.{IsVerified, Outcome, download-Outcome}
use cfdev.Resource.Cache.Synced.{sync-IsVerified, AreApart}

abbrev helper : Item
helper = record {
  url = "https://example.com/cfdevd";
  name = "cfdevd";
  md5 = "aa";
  size = 3;
  in_use = true;
}

abbrev image : Item
image = record {
  url = "https://example.com/cf.iso";
  name = "cf.iso";
  md5 = "aa";
  size = 3;
  in_use = true;
}

-- A server that answers every request with the same three bytes, whose digest is "aa".
abbrev system : System
system = record {
  md5 = λ b. "aa";
  read_error = λ n p. none;
  write_error = λ n p. none;
  request_error = λ u. none;
  http = λ n u r. response 200 "200 OK" (1 ∷ 2 ∷ 3 ∷ []) none;
  source = λ n p. cannot_open (plain "no such file");
  chmod_error = λ n p. none;
  rename_fails = λ n p. false;
  remove_fails = λ n p. false;
}

abbrev cache : Cache
cache = record { dir = "/cache"; skip_asset_verification = false }

abbrev empty : State
empty = record { files = []; progress = Progress.new; clock = 0 }

download-Outcome_example : Outcome system cache helper empty (download system cache helper empty)
unfolding is_local
download-Outcome_example = download-Outcome system cache helper empty refl refl refl

differ : (a b : String) → (a =s b) ≡ false → a ≢ b
differ a b h e = absurd (ground (arith, h, e, eq_iff a b))

are_apart : AreApart cache (helper ∷ image ∷ [])
are_apart = (((differ _ _ refl, differ _ _ refl), tt), (tt, tt))

succeeds : (sync system cache (helper ∷ image ∷ []) empty).0 ≡ none
unfolding sync sync_items download download_http get put erase is_local retry retryable
succeeds = refl

sync-IsVerified_example :
    All
      (λ i.
        IsVerified system (target cache i) i.md5 (sync system cache (helper ∷ image ∷ []) empty).1)
      (helper ∷ image ∷ [])
unfolding is_local
sync-IsVerified_example =
    sync-IsVerified system cache refl (λ n p. refl) (helper ∷ image ∷ []) empty
      ((refl, refl), ((refl, refl), tt)) are_apart succeeds

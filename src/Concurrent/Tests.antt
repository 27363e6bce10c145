-- ===== src/Concurrent/Tests.antt =====
-- The theorem on internal/concurrent at a concrete cache.
use issue.Base.{ℕ, ◌≡◌, ◌≢◌, refl, true, false, [], ◌∷◌, codes, none, some, All, arith}
use issue.Base.Int.{pos}
use issue.Base.Table.{lookup}
use issue.Concurrent.Cache.{Call, fetch, get_known, get, get_all}
use issue.Concurrent.Cache.Expiry.{IsEarly, get-valid}

-- A token is fetched at 1 and valid until 10; another key is asked for after that.
abbrev token_call : Call ℕ
token_call = record { key = codes "token"; now = pos 1; fetched = some 42; until = pos 10 }

abbrev other_call : Call ℕ
other_call = record { key = codes "other"; now = pos 20; fetched = none; until = pos 30 }

abbrev late_call : Call ℕ
late_call = record { key = codes "token"; now = pos 9; fetched = some 43; until = pos 18 }

token_call_fetches : (get [] token_call).fetches ≡ true
unfolding get get_known fetch lookup
token_call_fetches = refl

other_call-IsEarly : All (IsEarly (codes "token") (pos 10)) (other_call ∷ [])
other_call-IsEarly = (λ e. absurd (other_ne_token e), tt)
  where
    other_ne_token : codes "other" ≢ codes "token"
    other_ne_token e = ground arith

get-valid_example : get (get_all (get [] token_call).cache (other_call ∷ [])) late_call ≡ record {
  cache = get_all (get [] token_call).cache (other_call ∷ []);
  result = some 42;
  fetches = false;
}
get-valid_example =
    get-valid [] token_call 42 (other_call ∷ []) late_call token_call_fetches refl
      other_call-IsEarly refl refl

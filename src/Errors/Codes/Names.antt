-- ===== src/Errors/Codes/Names.antt =====
-- What the names, numbers and HTTP statuses of internal/status/codes/codes.go tell of a code.
use issue.Base.{
  ℕ, ◌+◌, ◌≤◌, ◌<◌, ◌≡◌, ◌≢◌, refl, ◌∙◌, sym, ap, Bool, true, false, arith, List, [], ◌∷◌, Bytes,
  Option, none, some, ◌=ᵇ◌, ==_iff, leb, ◌↔◌, get_elem?, if◌then◌else◌,
}
use issue.Errors.Codes.{
  Code, unknown, canceled, invalid_argument, deadline_exceeded, not_found, already_exists,
  permission_denied, too_many_requests, failed_precondition, aborted, unimplemented, internal,
  unavailable, unauthenticated, unprocessable, not_acceptable, locked, undefined, number, same_code,
  string, http,
}

-- One of the constants.
abbrev pub IsDefined : Code → Type 0
IsDefined (undefined n) = ⊥
IsDefined c = Unit

abbrev pub all_codes : List Code
all_codes =
    unknown ∷ canceled ∷ invalid_argument ∷ deadline_exceeded ∷ not_found ∷ already_exists
    ∷ permission_denied ∷ too_many_requests ∷ failed_precondition ∷ aborted ∷ unimplemented
    ∷ internal ∷ unavailable ∷ unauthenticated ∷ unprocessable ∷ not_acceptable ∷ locked ∷ []

-- The first code of the list with the name.
named : Bytes → List Code → Option Code
unfolding ◌=ᵇ◌ string
named s [] = none
named s (c ∷ cs) = if string c =ᵇ s then some c else named s cs

named-string : (c : Code) → IsDefined c → named (string c) all_codes ≡ some c
unfolding string named ◌=ᵇ◌
named-string unknown h = refl
named-string canceled h = refl
named-string invalid_argument h = refl
named-string deadline_exceeded h = refl
named-string not_found h = refl
named-string already_exists h = refl
named-string permission_denied h = refl
named-string too_many_requests h = refl
named-string failed_precondition h = refl
named-string aborted h = refl
named-string unimplemented h = refl
named-string internal h = refl
named-string unavailable h = refl
named-string unauthenticated h = refl
named-string unprocessable h = refl
named-string not_acceptable h = refl
named-string locked h = refl
named-string (undefined n) h = absurd h

-- Two codes of the package have different names.
pub string-injective : (c d : Code) → IsDefined c → IsDefined d → string c ≡ string d → c ≡ d
string-injective c d hc hd e =
    let found : some c ≡ some d =
      sym (named-string c hc) ∙ (ap (λ s. named s all_codes) e ∙ named-string d hd) in
    cc

-- The position of a code is its number.
get_elem?-number : (c : Code) → IsDefined c → get_elem? all_codes (number c) ≡ some c
unfolding number
get_elem?-number unknown h = refl
get_elem?-number canceled h = refl
get_elem?-number invalid_argument h = refl
get_elem?-number deadline_exceeded h = refl
get_elem?-number not_found h = refl
get_elem?-number already_exists h = refl
get_elem?-number permission_denied h = refl
get_elem?-number too_many_requests h = refl
get_elem?-number failed_precondition h = refl
get_elem?-number aborted h = refl
get_elem?-number unimplemented h = refl
get_elem?-number internal h = refl
get_elem?-number unavailable h = refl
get_elem?-number unauthenticated h = refl
get_elem?-number unprocessable h = refl
get_elem?-number not_acceptable h = refl
get_elem?-number locked h = refl
get_elem?-number (undefined n) h = absurd h

number-range : (c : Code) → IsDefined c → number c < 17
unfolding number
number-range unknown h = omega arith
number-range canceled h = omega arith
number-range invalid_argument h = omega arith
number-range deadline_exceeded h = omega arith
number-range not_found h = omega arith
number-range already_exists h = omega arith
number-range permission_denied h = omega arith
number-range too_many_requests h = omega arith
number-range failed_precondition h = omega arith
number-range aborted h = omega arith
number-range unimplemented h = omega arith
number-range internal h = omega arith
number-range unavailable h = omega arith
number-range unauthenticated h = omega arith
number-range unprocessable h = omega arith
number-range not_acceptable h = omega arith
number-range locked h = omega arith
number-range (undefined n) h = absurd h

-- A code is a constant or has a number beyond them.
data Origin (c : Code) : Type 0 where
  constant : IsDefined c → Origin c
  beyond : (n : ℕ) → c ≡ undefined n → Origin c

origin : (c : Code) → Origin c
origin (undefined n) = beyond n refl
origin unknown = constant tt
origin canceled = constant tt
origin invalid_argument = constant tt
origin deadline_exceeded = constant tt
origin not_found = constant tt
origin already_exists = constant tt
origin permission_denied = constant tt
origin too_many_requests = constant tt
origin failed_precondition = constant tt
origin aborted = constant tt
origin unimplemented = constant tt
origin internal = constant tt
origin unavailable = constant tt
origin unauthenticated = constant tt
origin unprocessable = constant tt
origin not_acceptable = constant tt
origin locked = constant tt

number-undefined : (n : ℕ) → number (undefined n) ≡ 17 + n
unfolding number
number-undefined n = refl

number-injective : (c d : Code) → number c ≡ number d → c ≡ d
number-injective c d e = elim (origin c) [
  | constant hc ↦ elim (origin d) [
    | constant hd ↦
        let found : some c ≡ some d =
          sym (get_elem?-number c hc)
          ∙ (ap (λ n. get_elem? all_codes n) e ∙ get_elem?-number d hd) in
        cc
    | beyond n k ↦ absurd (omega (arith, number-range c hc, e, ap number k, number-undefined n))
  ]
  | beyond n k ↦ elim (origin d) [
    | constant hd ↦ absurd (omega (arith, number-range d hd, e, ap number k, number-undefined n))
    | beyond m l ↦
        let same : n ≡ m =
          omega (arith, e, ap number k, ap number l, number-undefined n, number-undefined m) in
        k ∙ (ap undefined same ∙ sym l)
  ]
]

-- Codes are equal exactly if their numbers are.
pub same_code_iff : (c d : Code) → (same_code c d ≡ true) ↔ (c ≡ d)
unfolding same_code
same_code_iff c d = (
  λ h. number-injective c d ((==_iff (number c) (number d)).0 h),
  λ e. (==_iff (number c) (number d)).1 (ap number e),
)

-- The codes that say that the server is at fault.
abbrev pub blames_server : Code → Bool
blames_server unknown = true
blames_server internal = true
blames_server unimplemented = true
blames_server unavailable = true
blames_server (undefined n) = true
blames_server c = false

-- Every code is shown as an HTTP error, never as a 403, and as a 5xx exactly if it is one of unknown,
-- internal, unimplemented and unavailable, or no code of the package.
pub http-IsError :
    (c : Code)
    → (400 ≤ http c) × (http c < 600) × (http c ≢ 403) × (leb 500 (http c) ≡ blames_server c)
unfolding http
http-IsError unknown = (omega arith, omega arith, omega arith, refl)
http-IsError canceled = (omega arith, omega arith, omega arith, refl)
http-IsError invalid_argument = (omega arith, omega arith, omega arith, refl)
http-IsError deadline_exceeded = (omega arith, omega arith, omega arith, refl)
http-IsError not_found = (omega arith, omega arith, omega arith, refl)
http-IsError already_exists = (omega arith, omega arith, omega arith, refl)
http-IsError permission_denied = (omega arith, omega arith, omega arith, refl)
http-IsError too_many_requests = (omega arith, omega arith, omega arith, refl)
http-IsError failed_precondition = (omega arith, omega arith, omega arith, refl)
http-IsError aborted = (omega arith, omega arith, omega arith, refl)
http-IsError unimplemented = (omega arith, omega arith, omega arith, refl)
http-IsError internal = (omega arith, omega arith, omega arith, refl)
http-IsError unavailable = (omega arith, omega arith, omega arith, refl)
http-IsError unauthenticated = (omega arith, omega arith, omega arith, refl)
http-IsError unprocessable = (omega arith, omega arith, omega arith, refl)
http-IsError not_acceptable = (omega arith, omega arith, omega arith, refl)
http-IsError locked = (omega arith, omega arith, omega arith, refl)
http-IsError (undefined n) = (omega arith, omega arith, omega arith, refl)

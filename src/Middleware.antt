-- ===== src/Middleware.antt =====
-- postgre-setup/go/internal/api/middleware/{auth,idempotency}.go, in the order of the protected
-- routes of postgre-setup/go/internal/api/router.go. Texts are lists of bytes.
use playground_ledger.Prelude.{
  ℕ, ◌==◌, ==_iff, ◌≡◌, ◌↔◌, refl, ap, ◌∙◌, Bool, true, false, not, inl, inr, Option, none, some,
  Option-cases, List, [], ◌∷◌, ◌++◌, length, arith, if◌then◌else◌,
}

abbrev pub Bytes : Type 0
Bytes = List ℕ

-- "Bearer "
abbrev pub bearer : Bytes
bearer = 66 ∷ 101 ∷ 97 ∷ 114 ∷ 101 ∷ 114 ∷ 32 ∷ []

-- "dev_"
abbrev pub dev : Bytes
dev = 100 ∷ 101 ∷ 118 ∷ 95 ∷ []

-- "@dev.local"
abbrev pub dev_local : Bytes
dev_local = 64 ∷ 100 ∷ 101 ∷ 118 ∷ 46 ∷ 108 ∷ 111 ∷ 99 ∷ 97 ∷ 108 ∷ []

-- What follows a prefix.
unfoldable pub strip : Bytes → Bytes → Option Bytes
strip [] s = some s
strip (p ∷ ps) [] = none
strip (p ∷ ps) (c ∷ cs) = let rest = strip ps cs in if p == c then rest else none

abbrev or_else : Bytes → Option Bytes → Bytes
or_else s none = s
or_else s (some r) = r

abbrev is_some : Option Bytes → Bool
is_some none = false
is_some (some r) = true

-- strings.TrimPrefix
unfoldable pub trim_prefix : Bytes → Bytes → Bytes
trim_prefix p s = or_else s (strip p s)

-- strings.HasPrefix
unfoldable pub has_prefix : Bytes → Bytes → Bool
has_prefix p s = is_some (strip p s)

unfoldable pub same_bytes : Bytes → Bytes → Bool
same_bytes [] [] = true
same_bytes [] (c ∷ cs) = false
same_bytes (b ∷ bs) [] = false
same_bytes (b ∷ bs) (c ∷ cs) = let rest = same_bytes bs cs in if b == c then rest else false

pub record Identity : Type 0 where
  pub user_id : Bytes
  pub user_email : Bytes

-- The request goes on with an identity, or is answered with status 401.
pub data Admission : Type 0 where
  missing_header invalid_header invalid_token : Admission
  admitted : Identity → Admission

unfoldable pub authenticate : Bytes → Admission
authenticate header =
    let token = trim_prefix bearer header in
    let user_id = trim_prefix dev token in
    if same_bytes header []
    then missing_header
    else if same_bytes token header
    then invalid_header
    else if not (has_prefix dev token)
    then invalid_token
    else admitted (record { user_id = user_id; user_email = user_id ++ dev_local })

strip-append : (p r : Bytes) → strip p (p ++ r) ≡ some r
unfolding strip
strip-append [] r = refl
strip-append (c ∷ p) r = rw ((==_iff c c).1 refl) (strip-append p r)

strip_only : (p s r : Bytes) → strip p s ≡ some r → s ≡ p ++ r
unfolding strip
strip_only [] s r h = cc
strip_only (p ∷ ps) [] r h = cc
strip_only (p ∷ ps) (c ∷ cs) r h = ground (arith, strip_only ps cs r)

same_length : (s t : Bytes) → same_bytes s t ≡ true → length s ≡ length t
unfolding same_bytes
same_length [] [] h = refl
same_length [] (c ∷ cs) h = cc
same_length (b ∷ bs) [] h = cc
same_length (b ∷ bs) (c ∷ cs) h = ground (arith, same_length bs cs)

pub same_refl : (s : Bytes) → same_bytes s s ≡ true
unfolding same_bytes
same_refl [] = refl
same_refl (c ∷ cs) = rw ((==_iff c c).1 refl) (same_refl cs)

abbrev pub identity : Bytes → Identity
identity id = record { user_id = id; user_email = id ++ dev_local }

no_bearer :
    (header : Bytes) (i : Identity)
    → strip bearer header ≡ none
    → ¬ (authenticate header ≡ admitted i)
unfolding authenticate trim_prefix has_prefix
no_bearer header i h a = ground (arith, same_refl header)

no_dev :
    (header t : Bytes) (i : Identity)
    → strip bearer header ≡ some t
    → strip dev t ≡ none
    → ¬ (authenticate header ≡ admitted i)
unfolding authenticate trim_prefix has_prefix
no_dev header t i h e a = ground arith

both_prefixes :
    (header t u : Bytes) (i : Identity)
    → strip bearer header ≡ some t
    → strip dev t ≡ some u
    → authenticate header ≡ admitted i
    → i ≡ identity u
unfolding authenticate trim_prefix has_prefix
both_prefixes header t u i h e a = ground arith

-- A request is admitted exactly if its Authorization header is "Bearer dev_" and the identifier
-- that it is admitted with, whose e-mail address is the identifier and "@dev.local".
pub authenticate-admitted :
    (header : Bytes) (i : Identity)
    → (authenticate header ≡ admitted i)
      ↔ ((header ≡ bearer ++ dev ++ i.user_id) × (i.user_email ≡ i.user_id ++ dev_local))
unfolding authenticate trim_prefix has_prefix strip same_bytes
authenticate-admitted header i = (
  λ a. elim (Option-cases (strip bearer header)) [
    | inl none_left ↦ absurd (no_bearer header i none_left a)
    | inr (t, h) ↦ elim (Option-cases (strip dev t)) [
      | inl other ↦ absurd (no_dev header t i h other a)
      | inr (u, e) ↦
          rw (both_prefixes header t u i h e a)
            (strip_only bearer header t h ∙ ap (λ x. bearer ++ x) (strip_only dev t u e), refl)
    ]
  ],
  λ h. rw (h.0, h.1) refl,
)

-- The request methods; the program treats all but these alike.
pub data Method : Type 0 where
  post put patch other_method : Method

unfoldable pub mutates : Method → Bool
mutates post = true
mutates put = true
mutates patch = true
mutates other_method = false

-- What reaches the handler: an identity and, of a request that mutates, a key.
pub data Outcome : Type 0 where
  unauthorized bad_request : Outcome
  reached : Identity → Option ℕ → Outcome

-- `parse` is uuid.Parse.
module _ (parse : Bytes → Option ℕ) where
  abbrev with_key : Identity → Option ℕ → Outcome
  with_key i none = bad_request
  with_key i (some k) = reached i (some k)

  unfoldable pub require_key : Method → Bytes → Identity → Outcome
  unfolding mutates
  require_key m key i =
      if mutates m
      then (if same_bytes key [] then bad_request else with_key i (parse key))
      else reached i none

  abbrev after_authentication : Method → Bytes → Admission → Outcome
  after_authentication m key missing_header = unauthorized
  after_authentication m key invalid_header = unauthorized
  after_authentication m key invalid_token = unauthorized
  after_authentication m key (admitted i) = require_key m key i

  -- The protected routes: AuthMiddleware around IdempotencyMiddleware.
  unfoldable pub protect : Method → Bytes → Bytes → Outcome
  unfolding require_key
  protect m header key = after_authentication m key (authenticate header)

  admitted_first :
      (m : Method) (key : Bytes) (a : Admission) (i : Identity) (o : Option ℕ)
      → after_authentication m key a ≡ reached i o
      → (j : Identity) × (a ≡ admitted j) × (require_key m key j ≡ reached i o)
  admitted_first m key missing_header i o h = cc
  admitted_first m key invalid_header i o h = cc
  admitted_first m key invalid_token i o h = cc
  admitted_first m key (admitted j) i o h = (j, refl, h)

  key_parsed :
      (m : Method) (key : Bytes) (i j : Identity) (o : Option ℕ)
      → mutates m ≡ true
      → require_key m key j ≡ reached i o
      → (j ≡ i) × (o ≡ parse key) × (¬ (parse key ≡ none)) × (same_bytes key [] ≡ false)
  unfolding require_key
  key_parsed m key i j o e h = ground arith

  key_given :
      (m : Method) (key : Bytes) (i : Identity) (o : Option ℕ)
      → mutates m ≡ true
      → (o ≡ parse key) × (¬ (parse key ≡ none)) × (same_bytes key [] ≡ false)
      → require_key m key i ≡ reached i o
  unfolding require_key
  key_given m key i o e h = ground arith

-- A POST, PUT or PATCH on a protected route reaches its handler exactly if its Authorization header
-- is "Bearer dev_" and the identifier of the identity handed on, whose e-mail address is the
-- identifier and "@dev.local", and its Idempotency-Key header is not empty and is parsed to the
-- key handed on.
pub protect-reached :
    (parse : Bytes → Option ℕ) (m : Method) (header key : Bytes) (i : Identity) (o : Option ℕ)
    → mutates m ≡ true
    → (protect parse m header key ≡ reached i o) ↔ (
        ((header ≡ bearer ++ dev ++ i.user_id) × (i.user_email ≡ i.user_id ++ dev_local))
        × ((o ≡ parse key) × (¬ (parse key ≡ none)) × (same_bytes key [] ≡ false)))
unfolding protect
protect-reached parse m header key i o e = (
  λ h.
      let (j, a, r) = admitted_first parse m key (authenticate header) i o h in
      let (same, from_key, parses, full) = key_parsed parse m key i j o e r in
      ((authenticate-admitted header i).0 (a ∙ ap admitted same), (from_key, parses, full)),
  λ h. rw ((authenticate-admitted header i).1 h.0) (key_given parse m key i o e h.1),
)

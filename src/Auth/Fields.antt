-- ===== src/Auth/Fields.antt =====
-- `validate_password_strength` and `validate_email` of middleware_python/core/security.py. The classes of
-- characters (`isupper`, `islower`, `isdigit`) are Python's, an argument.
use social_graph_engine.Base.{
  ℕ, ◌≤◌, ◌≡◌, ◌≢◌, ◌↔◌, refl, sym, ◌∙◌, ap, subst, Bool, true, false, not, ◌||◌, [], ◌∷◌, ◌++◌,
  ◌==◌, ltb, length, Text, arith, if◌then◌else◌, Bool-cases, inl, inr,
}

pub record Classes : Type 0 where
  pub isupper : ℕ → Bool
  pub islower : ℕ → Bool
  pub isdigit : ℕ → Bool

-- The verdict, or which rule is broken first.
pub data Strength : Type 0 where
  strong short no_upper no_lower no_digit : Strength

-- `any(test(c) for c in password)`
unfoldable pub any_char : (ℕ → Bool) → Text → Bool
any_char test [] = false
any_char test (c ∷ cs) = test c || any_char test cs

-- `validate_password_strength`
unfoldable pub validate_password_strength : Classes → Text → Strength
unfolding any_char
validate_password_strength K password =
    if ltb (length password) 8
    then short
    else if not (any_char K.isupper password)
    then no_upper
    else if not (any_char K.islower password)
    then no_lower
    else if not (any_char K.isdigit password)
    then no_digit
    else strong

-- `email.partition("@")` where there is an "@": what stands before the first one and behind it.
unfoldable pub partition_at : Text → Text × Text
partition_at [] = ([], [])
partition_at (c ∷ cs) =
    let (local, domain) = partition_at cs in if c == b'@' then ([], cs) else (c ∷ local, domain)

abbrev is_empty : Text → Bool
is_empty [] = true
is_empty (_ ∷ _) = false

unfoldable pub validate_parts : ℕ → Text × Text → Bool
unfolding any_char
validate_parts n (local, domain) =
    if is_empty local || is_empty domain
    then false
    else if not (any_char (λ c. c == b'.') domain)
    then false
    else if ltb 254 n
    then false
    else true

-- `validate_email`
unfoldable pub validate_email : Text → Bool
unfolding any_char validate_parts partition_at
validate_email email =
    if not (any_char (λ c. c == b'@') email)
    then false
    else validate_parts (length email) (partition_at email)

-- What the check asks of a local part and a domain.
abbrev pub IsAddress : Text → Text → Type 0
IsAddress local domain =
    (any_char (λ c. c == b'@') local ≡ false)
    × (local ≢ [])
    × (any_char (λ c. c == b'.') domain ≡ true)
    × (length (local ++ b'@' ∷ domain) ≤ 254)

partition_at-append :
    (local domain : Text)
    → any_char (λ c. c == b'@') local ≡ false
    → partition_at (local ++ b'@' ∷ domain) ≡ (local, domain)
unfolding partition_at any_char
partition_at-append [] domain out = refl
partition_at-append (c ∷ local) domain out = ground (arith, partition_at-append local domain)

partition_at_lem :
    (email : Text)
    → any_char (λ c. c == b'@') email ≡ true
    → (any_char (λ c. c == b'@') (partition_at email).0 ≡ false)
      × (email ≡ (partition_at email).0 ++ b'@' ∷ (partition_at email).1)
unfolding partition_at any_char
partition_at_lem [] has = absurd (cc)
partition_at_lem (c ∷ cs) has = elim (Bool-cases (c == b'@')) [
  | inl here ↦ ground arith
  | inr later ↦
      let (before, whole) = partition_at_lem cs (ground arith) in (ground arith, ground arith)
]

judge :
    (dot : Bool) (n : ℕ)
    → ((if not dot then false else if ltb 254 n then false else true) ≡ true)
      ↔ ((dot ≡ true) × (n ≤ 254))
judge false n = ((λ h. absurd (cc)), (λ h. absurd (cc h.0)))
judge true n = ((λ h. (refl, ground arith)), (λ h. ground arith))

validate_parts_lem :
    (n : ℕ) (local domain : Text)
    → (validate_parts n (local, domain) ≡ true)
      ↔ ((local ≢ []) × (any_char (λ c. c == b'.') domain ≡ true) × (n ≤ 254))
unfolding validate_parts any_char
validate_parts_lem n [] domain = (λ h. absurd (cc), λ h. absurd (h.0 refl))
validate_parts_lem n (c ∷ cs) [] = (λ h. absurd (cc), λ h. absurd (cc h.1))
validate_parts_lem n (c ∷ cs) (d ∷ ds) =
    let (there, back) = judge (any_char (λ c. c == b'.') (d ∷ ds)) n in
    ((λ h. ((λ e. cc), (there h).0, (there h).1)), (λ h. back (h.1, h.2)))

split :
    (email : Text) (has : Bool)
    → any_char (λ c. c == b'@') email ≡ has
    → (if not has then false else validate_parts (length email) (partition_at email)) ≡ true
    → (local : Text) × (domain : Text) × (email ≡ local ++ b'@' ∷ domain) × IsAddress local domain
split email false known h = absurd (cc)
split email true known h =
    let (local, domain) = partition_at email in
    let (before, whole) = partition_at_lem email known in
    let (there, dotted, fits) = (validate_parts_lem (length email) local domain).0 h in
    (local, domain, whole, (before, there, dotted, subst (λ t. length t ≤ 254) whole fits))

any_char-middle : (xs ys : Text) → any_char (λ c. c == b'@') (xs ++ b'@' ∷ ys) ≡ true
unfolding any_char
any_char-middle [] ys = refl
any_char-middle (x ∷ xs) ys = ground (arith, any_char-middle xs ys)

join :
    (local domain : Text) → IsAddress local domain → validate_email (local ++ b'@' ∷ domain) ≡ true
unfolding validate_email
join local domain (before, there, dotted, fits) =
    let email = local ++ b'@' ∷ domain in
    ap (λ b. if not b then false else validate_parts (length email) (partition_at email))
      (any_char-middle local domain)
    ∙ ap (validate_parts (length email)) (partition_at-append local domain before)
    ∙ (validate_parts_lem (length email) local domain).1 (there, dotted, fits)

-- An e-mail address is accepted exactly if it is a text that is not empty and has no "@", an "@" and
-- a domain with a dot in it, of 254 characters at most together. The domain may be a dot alone, and it
-- may hold further "@".
pub validate_email_iff :
    (email : Text)
    → (validate_email email ≡ true) ↔ (
        (local : Text) × (domain : Text) × (email ≡ local ++ b'@' ∷ domain)
        × IsAddress local domain)
unfolding validate_email
validate_email_iff email = (
  split email (any_char (λ c. c == b'@') email) refl,
  λ s. subst (λ t. validate_email t ≡ true) (sym s.2) (join s.0 s.1 s.3),
)

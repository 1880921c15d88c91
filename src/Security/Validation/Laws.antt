-- ===== src/Security/Validation/Laws.antt =====
-- What passes the validation of internal/security/validation.go, and what that means for the labels
-- of internal/hsm/pkcs11_client.go.
use hsm_secrets_operator.Common.{
  ℕ, ◌+◌, ◌≤◌, ◌≡◌, refl, ap, subst, inl, inr, List, [], ◌∷◌, ◌++◌, Bool, true, false, not, ◌||◌,
  Option, none, some, if◌then◌else◌, Bool-cases, ltb, Str, str, str_eq, str_eq_iff, length, In,
  Distinct, arith,
}
use hsm_secrets_operator.Hsm.{SecretData}
use hsm_secrets_operator.Hsm.Mock.{has_prefix}
use hsm_secrets_operator.Hsm.Session.{is_empty}
use hsm_secrets_operator.Hsm.Hardware.{has_suffix, label_of, metadata_key_suffix, default_key_name}
use hsm_secrets_operator.Hsm.Hardware.Written.{IsPlain}
use hsm_secrets_operator.Security.Validation.{
  Invalid, valid_path_pattern, contains, matches_forbidden, validate_secret_path, validate_key,
  validate_entries, validate_secret_data, is_blank, data_too_large,
}

has_suffix_tail : (c : ℕ) (s p : Str) → has_suffix (c ∷ s) p ≡ false → has_suffix s p ≡ false
unfolding has_suffix
has_suffix_tail c s p h = ground arith

has_suffix_whole : (s p : Str) → s ≡ p → has_suffix s p ≡ true
unfolding has_suffix str_eq
has_suffix_whole [] p e = rw (← e) refl
has_suffix_whole (c ∷ s) p e = let y = (str_eq_iff (c ∷ s) p).1 e in rw y refl

-- What ends with the suffix of metadata labels ends with the reserved word.
has_suffix_shorter :
    (s : Str) → has_suffix s (str "_metadata") ≡ false → has_suffix s metadata_key_suffix ≡ false
unfolding has_suffix str_eq
has_suffix_shorter [] h = refl
has_suffix_shorter (c ∷ s) h = elim (Bool-cases (str_eq (c ∷ s) metadata_key_suffix)) [
  | inl y ↦
      let e : c ∷ s ≡ metadata_key_suffix = (str_eq_iff (c ∷ s) metadata_key_suffix).0 y in
      let rest : s ≡ str "_metadata" = cc e in
      cc (has_suffix_tail c s (str "_metadata") h, has_suffix_whole s (str "_metadata") rest)
  | inr n ↦ rw n (has_suffix_shorter s (has_suffix_tail c s (str "_metadata") h))
]

In-behind : (s : Str) (c : ℕ) (t : Str) → In c (s ++ (c ∷ t))
In-behind [] c t = inl refl
In-behind (d ∷ s) c t = inr (In-behind s c t)

no_slash : ¬ (In 47 (str "_metadata"))
no_slash m = ground arith

-- A path with a key behind a slash ends with the suffix of metadata only where the key is the
-- reserved word or ends with that suffix.
has_suffix-key :
    (path key : Str)
    → has_suffix key (str "_metadata") ≡ false
    → has_suffix (path ++ (str "/" ++ key)) metadata_key_suffix ≡ false
unfolding has_suffix
has_suffix-key [] key h = elim (Bool-cases (str_eq (str "/" ++ key) metadata_key_suffix)) [
  | inl y ↦
      let e : str "/" ++ key ≡ metadata_key_suffix =
        (str_eq_iff (str "/" ++ key) metadata_key_suffix).0 y in
      let rest : key ≡ str "_metadata" = cc e in cc (h, has_suffix_whole key (str "_metadata") rest)
  | inr n ↦ rw n (has_suffix_shorter key h)
]
has_suffix-key (c ∷ path) key h =
    elim (Bool-cases (str_eq (c ∷ (path ++ (str "/" ++ key))) metadata_key_suffix)) [
      | inl y ↦
          let e : c ∷ (path ++ (str "/" ++ key)) ≡ metadata_key_suffix = (str_eq_iff _ _).0 y in
          let rest : path ++ (str "/" ++ key) ≡ str "_metadata" = cc e in
          let slash : In 47 (str "_metadata") = subst (λ s. In 47 s) rest (In-behind path 47 key) in
          absurd (no_slash slash)
      | inr n ↦ rw n (has_suffix-key path key h)
    ]

filled_str : (s : Str) → is_blank s ≡ false → is_empty s ≡ false
filled_str [] h = cc
filled_str (c ∷ s) h = refl

four_tests :
    (w x y z : Invalid) (a b c d : Bool)
    → (if a then some w else if b then some x else if c then some y else if d then some z else none)
      ≡ none
    → (a ≡ false) × (b ≡ false) × (c ≡ false) × (d ≡ false)
four_tests w x y z true b c d h = cc
four_tests w x y z false true c d h = cc
four_tests w x y z false false true d h = cc
four_tests w x y z false false false true h = cc
four_tests w x y z false false false false h = (refl, refl, refl, refl)

last_of_five : (a b c d e : Bool) → (a || b || c || d || e) ≡ false → e ≡ false
last_of_five a b c d e h = ground arith

checked_path :
    (path : Str)
    → validate_secret_path path ≡ none
    → (is_empty path ≡ false) × (has_suffix path (str "_metadata") ≡ false)
unfolding validate_secret_path
checked_path path h =
    let (filled, short, valid, allowed) =
      four_tests _ _ _ _ (is_blank path) (ltb 256 (length path)) (not (valid_path_pattern path))
        (matches_forbidden path) h in
    (
      filled_str path filled,
      last_of_five (contains (str "..") path) (contains (str "//") path) (has_prefix path (str "/"))
          (has_suffix path (str "/")) (has_suffix path (str "_metadata")) allowed,
    )

checked_key :
    (key : Str)
    → validate_key key ≡ none
    → (is_empty key ≡ false) × (has_suffix key (str "_metadata") ≡ false)
unfolding validate_key
checked_key key h =
    let (filled, short, free, valid) =
      four_tests _ _ _ _ (is_blank key) (ltb 1024 (length key)) (has_suffix key (str "_metadata"))
        (not (valid_path_pattern key)) h in
    (filled_str key filled, free)

-- the bytes of all values
unfoldable pub total_size : SecretData → ℕ
total_size [] = 0
total_size ((key, value) ∷ data') = length value + total_size data'

first_entry :
    (k : Option Invalid) (over : Bool) (rest : Option Invalid)
    → elim k [ some e ↦ some e | none ↦ if over then some data_too_large else rest ] ≡ none
    → (k ≡ none) × (over ≡ false) × (rest ≡ none)
first_entry (some e) over rest h = cc
first_entry none true rest h = cc
first_entry none false rest h = (refl, refl, h)

entries_cons :
    (key : Str) (value : List ℕ) (data' : SecretData) (size : ℕ)
    → validate_entries ((key, value) ∷ data') size ≡ none
    → (validate_key key ≡ none)
      × (ltb 1048576 (size + length value) ≡ false)
      × (validate_entries data' (size + length value) ≡ none)
unfolding validate_entries
entries_cons key value data' size h =
    first_entry (validate_key key) (ltb 1048576 (size + length value))
      (validate_entries data' (size + length value)) h

checked_entries :
    (data' : SecretData) (size : ℕ) (key : Str) (value : List ℕ)
    → validate_entries data' size ≡ none
    → In (key, value) data'
    → validate_key key ≡ none
checked_entries [] size key value h m = absurd m
checked_entries ((j, u) ∷ data') size key value h (inl e) =
    let k : key ≡ j = ap (λ x. x.0) e in rw k ((entries_cons j u data' size h).0)
checked_entries ((j, u) ∷ data') size key value h (inr m) =
    checked_entries data' (size + length u) key value ((entries_cons j u data' size h).2) m

checked_size :
    (data' : SecretData) (size : ℕ)
    → size ≤ 1048576
    → validate_entries data' size ≡ none
    → size + total_size data' ≤ 1048576
unfolding total_size
checked_size [] size le h = omega arith
checked_size ((key, value) ∷ data') size le h =
    let (k, over, rest) = entries_cons key value data' size h in
    let fits : size + length value ≤ 1048576 = ground arith in
    let ih = checked_size data' (size + length value) fits rest in omega arith

checked_data :
    (data' : SecretData)
    → validate_secret_data (some data') ≡ none
    → (is_empty data' ≡ false) × (validate_entries data' 0 ≡ none)
unfolding validate_secret_data
checked_data [] h = cc
checked_data (e ∷ data') h = (refl, h)

label_of-has_suffix :
    (path key : Str)
    → has_suffix path (str "_metadata") ≡ false
    → has_suffix key (str "_metadata") ≡ false
    → has_suffix (label_of path key) metadata_key_suffix ≡ false
unfolding label_of
label_of-has_suffix path key free h = elim (Bool-cases (str_eq key default_key_name)) [
  | inl y ↦ rw y (has_suffix_shorter path free)
  | inr n ↦ rw n (has_suffix-key path key h)
]

-- Secret data with distinct keys that passes the validation, at a path that passes it, is a plain
-- secret there: its labels keep the keys and the metadata apart. The path and the data are not
-- empty, and the values have at most 2^20 bytes together.
pub validate_secret_data-IsPlain :
    (path : Str) (data' : SecretData)
    → validate_secret_path path ≡ none
    → validate_secret_data (some data') ≡ none
    → Distinct (λ e. e.0) data'
    → IsPlain path data'
      × (is_empty path ≡ false)
      × (is_empty data' ≡ false)
      × (total_size data' ≤ 1048576)
validate_secret_data-IsPlain path data' p d distinct =
    let entries = checked_data data' d in
    let (filled, free) = checked_path path p in
    (
      (
        distinct,
        λ key value m.
            let k = checked_key key (checked_entries data' 0 key value entries.1 m) in
            (k.0, label_of-has_suffix path key free k.1),
      ),
      filled,
      entries.0,
      sized data' (checked_size data' 0 (omega arith) entries.1),
    )
  where
    sized : (d : SecretData) → 0 + total_size d ≤ 1048576 → total_size d ≤ 1048576
    sized d h = omega arith

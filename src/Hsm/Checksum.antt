-- ===== src/Hsm/Checksum.antt =====
-- CalculateChecksum of internal/hsm/client.go: its exchange sort, and what its digest tells apart.
use hsm_secrets_operator.Common.{
  ℕ, zero, suc, ◌-◌, ◌≤◌, ◌≡◌, refl, sym, ap, ◌∙◌, List, [], ◌∷◌, ◌++◌, false, inl, inr, Perm,
  Permᴰ, ∥∥₁_elim, Bool-cases, if◌then◌else◌, length, In, Distinct, Str, str, str_eq_iff, str_ltb,
  str_ltb_asymm, str_ltb_irrefl, str_le_trans, insert_str, sort_strings, sort_strings-permᴰ,
  Distinct-permᴰ, str_eq_refl, In-sort_strings, get, keys_of, arith,
}
use mathlib.Core.List.{append_assoc}
use hsm_secrets_operator.Golib.{Golib}
use hsm_secrets_operator.Hsm.{SecretData, exchange, exchange_sort, digest_input, calculate_checksum}

-- One round of the sort: the keys are kept, and the first is the least.
exchange-permᴰ : (x : Str) (xs : List Str) → Permᴰ (x ∷ xs) ((exchange x xs).0 ∷ (exchange x xs).1)
unfolding exchange
exchange-permᴰ x [] = Permᴰ.cons refl Permᴰ.nil
exchange-permᴰ x (y ∷ ys) = elim (Bool-cases (str_ltb y x)) [
  | inl t ↦ rw t (
      Permᴰ.trans (Permᴰ.swap refl refl) (
        Permᴰ.trans (Permᴰ.swap refl refl)
          (Permᴰ.trans (Permᴰ.cons refl (exchange-permᴰ y ys)) (Permᴰ.swap refl refl))))
  | inr f ↦ rw f (
      Permᴰ.trans (Permᴰ.swap refl refl)
        (Permᴰ.trans (Permᴰ.cons refl (exchange-permᴰ x ys)) (Permᴰ.swap refl refl)))
]

exchange-le :
    (x : Str) (xs : List Str)
    → (str_ltb x (exchange x xs).0 ≡ false)
      × ((t : Str) → In t (exchange x xs).1 → str_ltb t (exchange x xs).0 ≡ false)
unfolding exchange
exchange-le x [] = (str_ltb_irrefl x, λ t m. absurd m)
exchange-le x (y ∷ ys) = elim (Bool-cases (str_ltb y x)) [
  | inl s ↦
      let (first, later) = exchange-le y ys in
      let below = str_le_trans (exchange y ys).0 y x first (str_ltb_asymm y x s) in
      rw s (below, λ t m. elim m [ inl e ↦ rw e below | inr r ↦ later t r ])
  | inr f ↦
      let (first, later) = exchange-le x ys in
      rw f (
        first,
        λ t m. elim m [
          | inl e ↦ rw e (str_le_trans (exchange x ys).0 x y first f)
          | inr r ↦ later t r
        ],
      )
]

length-exchange : (x : Str) (xs : List Str) → length (exchange x xs).1 ≡ length xs
unfolding exchange
length-exchange x [] = refl
length-exchange x (y ∷ ys) = ap suc (length-exchange (if str_ltb y x then y else x) ys)

-- Inserting a string that nothing precedes puts it in front.
insert_str-least :
    (s : Str) (ss : List Str)
    → ((t : Str) → In t ss → str_ltb t s ≡ false)
    → insert_str s ss ≡ s ∷ ss
unfolding insert_str
insert_str-least s [] h = refl
insert_str-least s (t ∷ ts) h = rw (h t (inl refl))

sort_cons : (s : Str) (ss : List Str) → insert_str s (sort_strings ss) ≡ sort_strings (s ∷ ss)
unfolding sort_strings
sort_cons s ss = refl

exchange_sort-eq :
    (n : ℕ) (xs : List Str) → length xs ≤ suc n → exchange_sort n xs ≡ sort_strings xs
unfolding exchange_sort
exchange_sort-eq zero [] h = unfold sort_strings in refl
exchange_sort-eq zero (x ∷ []) h = unfold sort_strings insert_str in refl
exchange_sort-eq zero (x ∷ y ∷ xs) h = absurd (omega arith)
exchange_sort-eq (suc n) [] h = unfold sort_strings in refl
exchange_sort-eq (suc n) (x ∷ xs) h =
    let (m, rest) = exchange x xs in
    let ih = exchange_sort-eq n rest (omega (arith, length-exchange x xs)) in
    let least : insert_str m (sort_strings rest) ≡ m ∷ sort_strings rest =
      insert_str-least m (sort_strings rest)
        (λ t i. (exchange-le x xs).1 t (In-sort_strings t rest i)) in
    ap (λ (l : List Str). m ∷ l) ih
    ∙ sym least
    ∙ sort_cons m rest
    ∙ sym (sort_strings-permᴰ (exchange-permᴰ x xs))

-- With a round for each key but the last the exchange sort of CalculateChecksum agrees with sort.Strings.
exchange_sort-eq-sort_strings : (xs : List Str) → exchange_sort (length xs - 1) xs ≡ sort_strings xs
exchange_sort-eq-sort_strings xs = exchange_sort-eq (length xs - 1) xs (omega arith)

abbrev pub key : Str × List ℕ → Str
key (k, v) = k

keys_of-permᴰ : {d e : SecretData} → Permᴰ d e → Permᴰ (keys_of d) (keys_of e)
keys_of-permᴰ Permᴰ.nil = Permᴰ.nil
keys_of-permᴰ (Permᴰ.cons p h) = Permᴰ.cons (ap key p) (keys_of-permᴰ h)
keys_of-permᴰ (Permᴰ.swap p q) = Permᴰ.swap (ap key p) (ap key q)
keys_of-permᴰ (Permᴰ.trans h k) = Permᴰ.trans (keys_of-permᴰ h) (keys_of-permᴰ k)

get-permᴰ : (k : Str) {d e : SecretData} → Permᴰ d e → Distinct key d → get k d ≡ get k e
unfolding get
get-permᴰ k Permᴰ.nil u = refl
get-permᴰ k (Permᴰ.cons p h) u = rw (p, get-permᴰ k h u.1)
get-permᴰ k (Permᴰ.swap {a = (i, v)} {b = (j, w)} {l = l} p q) u =
    rw (← p, ← q) (ground (arith, str_eq_iff i k, str_eq_iff j k, u.0 (j, w) (inl refl)))
get-permᴰ k (Permᴰ.trans h l) u = get-permᴰ k h u ∙ get-permᴰ k l (Distinct-permᴰ key h u)

digest_input-ext :
    (d e : SecretData) (ks : List Str)
    → ((k : Str) → get k d ≡ get k e)
    → digest_input d ks ≡ digest_input e ks
unfolding digest_input
digest_input-ext d e [] h = refl
digest_input-ext d e (k ∷ ks) h = rw (h k, digest_input-ext d e ks h)

-- The checksum of a secret does not depend on the order in which Go ranges over its keys.
pub calculate_checksum-perm :
    (go : Golib) (d e : SecretData)
    → Distinct key d
    → Perm d e
    → calculate_checksum go d ≡ calculate_checksum go e
unfolding calculate_checksum
calculate_checksum-perm go d e u h = ∥∥₁_elim h (List-set _ _) λ p.
    ap (λ (l : List ℕ). str "sha256:" ++ go.sha256_hex l)
      (rw
        (
          exchange_sort-eq-sort_strings (keys_of d),
          exchange_sort-eq-sort_strings (keys_of e),
          sort_strings-permᴰ (keys_of-permᴰ p),
        )
        (digest_input-ext d e (sort_strings (keys_of e)) (λ k. get-permᴰ k p u)))
  where
    List-set : IsSet (List ℕ)
    List-set = hlevel

-- The digest is fed keys and values with nothing between them: a byte moved from the end of a key
-- to the front of its value gives another secret with the same checksum, whatever the digest.
pub calculate_checksum_ambiguous :
    (go : Golib) (k v : Str) (b : ℕ)
    → calculate_checksum go ((k ++ b ∷ [], v) ∷ []) ≡ calculate_checksum go ((k, b ∷ v) ∷ [])
unfolding calculate_checksum get
calculate_checksum_ambiguous go k v b =
    simp (str_eq_refl (k ++ b ∷ []), str_eq_refl k, append_assoc)

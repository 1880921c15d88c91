-- ===== src/Agent/Naming/Laws.antt =====
-- The names of agents: their length, their alphabet, and when two devices share one.
use hsm_secrets_operator.Common.{
  ℕ, zero, suc, ◌+◌, ◌≤◌, ◌≡◌, refl, sym, ap, subst, ◌∙◌, ◌↔◌, inl, inr, List, [], ◌∷◌, ◌++◌,
  length, map, Bool, true, false, ◌&&◌, none, some, Bool-cases, ltb, ◌==◌, In, Str, str, arith,
}
use hsm_secrets_operator.Agent.Naming.{
  max_agent_name_length, agent_name_prefix, dash, sanitize_rune, trim_right, trim_left,
  sanitize_name_segment, take, instance_name, agent_instance_name,
}
use hsm_secrets_operator.Agent.Naming.Bytes.{
  is_name_byte, NameBytes, ends_in_dash, NameBytes-map, In-trim_left, In-trim_right, In-take,
  NameBytes-append, length-take, length-trim_right, ends_in_dash-trim_right, ends_in_dash-append,
}

-- What a name promises: its length, its alphabet and its end.
pub record SafeName (name : Str) : Type 0 where
  pub bounded : length name ≤ 63
  pub alphabet : NameBytes name
  pub no_dash_at_end : ends_in_dash name ≡ false

abbrev all_name_bytes : Str → Bool
all_name_bytes [] = true
all_name_bytes (b ∷ bs) = is_name_byte b && all_name_bytes bs

pub NameBytes-all : (s : Str) → all_name_bytes s ≡ true → NameBytes s
NameBytes-all [] h b m = absurd m
NameBytes-all (c ∷ s) h b (inl e) = ground (arith, ap is_name_byte e, h)
NameBytes-all (c ∷ s) h b (inr m) = NameBytes-all s (ground (arith, h)) b m

-- The name before it is cut.
abbrev full : Str → Str → Str
full d s = agent_name_prefix ++ (str "-" ++ (d ++ (str "-" ++ s)))

NameBytes-full : (d s : Str) → NameBytes d → NameBytes s → NameBytes (full d s)
NameBytes-full d s h k =
    NameBytes-append agent_name_prefix (str "-" ++ (d ++ (str "-" ++ s)))
      (NameBytes-all agent_name_prefix refl)
      (NameBytes-append (str "-") (d ++ (str "-" ++ s)) (NameBytes-all (str "-") refl) (
        NameBytes-append d (str "-" ++ s) h
          (NameBytes-append (str "-") s (NameBytes-all (str "-") refl) k)))

instance_name-SafeName :
    (d s name : Str)
    → NameBytes d
    → NameBytes s
    → ends_in_dash s ≡ false
    → instance_name d s ≡ some name
    → SafeName name
unfolding instance_name
instance_name-SafeName d [] name h k e g = cc
instance_name-SafeName d (b ∷ bs) name h k e g =
    elim (Bool-cases (ltb max_agent_name_length (length (full d (b ∷ bs))))) [
      | inl y ↦
          let same : trim_right (take 63 (full d (b ∷ bs))) ≡ name = some_inj (rw y at g) in
          subst SafeName same (record {
            bounded = omega (
              arith,
              length-trim_right (take 63 (full d (b ∷ bs))),
              length-take 63 (full d (b ∷ bs)),
            );
            alphabet = λ x m.
                NameBytes-full d (b ∷ bs) h k x
                  (In-take x 63 (full d (b ∷ bs)) (In-trim_right x (take 63 (full d (b ∷ bs))) m));
            no_dash_at_end = ends_in_dash-trim_right (take 63 (full d (b ∷ bs)));
          })
      | inr n ↦
          let same : full d (b ∷ bs) ≡ name = some_inj (rw n at g) in
          subst SafeName same (record {
            bounded = ground (arith, n);
            alphabet = NameBytes-full d (b ∷ bs) h k;
            no_dash_at_end =
                ends_in_dash-append (agent_name_prefix ++ (str "-" ++ d)) 45 (b ∷ bs) ∙ e;
          })
    ]
  where
    some_inj : {x y : Str} → some x ≡ some y → x ≡ y
    some_inj e = cc

-- Every name that `agent_instance_name` gives for a device name of lower-case letters, digits and
-- dashes has at most 63 bytes of that alphabet and does not end in a dash.
pub agent_instance_name-SafeName :
    (d name : Str) (serial : List ℕ)
    → NameBytes d
    → agent_instance_name d serial ≡ some name
    → SafeName name
unfolding agent_instance_name sanitize_name_segment
agent_instance_name-SafeName d name serial h g =
    instance_name-SafeName d (sanitize_name_segment serial) name h
      (λ b m. NameBytes-map serial b (
        In-trim_left b (map sanitize_rune serial)
          (In-trim_right b (trim_left (map sanitize_rune serial)) m)))
      (ends_in_dash-trim_right (trim_left (map sanitize_rune serial))) g

AllDashes : Str → Type 0
AllDashes s = (b : ℕ) → In b s → b ≡ dash

trim_left-AllDashes : (s : Str) → AllDashes s → trim_left s ≡ []
unfolding trim_left AllDashes
trim_left-AllDashes [] h = refl
trim_left-AllDashes (b ∷ s) h = rw (h b (inl refl)) (trim_left-AllDashes s (λ c i. h c (inr i)))

AllDashes-trim : (s : Str) → trim_right (trim_left s) ≡ [] → AllDashes s
unfolding trim_left trim_right AllDashes
AllDashes-trim [] h b m = absurd m
AllDashes-trim (c ∷ s) h b m = elim (Bool-cases (c == dash)) [
  | inl y ↦ elim m [ inl e ↦ ground (arith, e, y) | inr i ↦ AllDashes-trim s (rw y at h) b i ]
  | inr n ↦ absurd (ground (arith, n, h))
]

take-front :
    (k : ℕ) (d s : Str) → k ≤ suc (length d) → take k (d ++ (dash ∷ s)) ≡ take k (d ++ (dash ∷ []))
unfolding take
take-front zero d s h = refl
take-front (suc zero) [] s h = refl
take-front (suc (suc k)) [] s h = absurd (omega arith)
take-front (suc k) (c ∷ d) s h = ap (λ (t : Str). c ∷ t) (take-front k d s (omega arith))

In-map : (r : ℕ) (rs : List ℕ) → In r rs → In (sanitize_rune r) (map sanitize_rune rs)
In-map r [] i = absurd i
In-map r (x ∷ rs) (inl e) = inl (ap sanitize_rune e)
In-map r (x ∷ rs) (inr i) = inr (In-map r rs i)

AllDashes-map :
    (rs : List ℕ) → ((r : ℕ) → In r rs → sanitize_rune r ≡ dash) → AllDashes (map sanitize_rune rs)
unfolding AllDashes
AllDashes-map [] h b i = absurd i
AllDashes-map (x ∷ rs) h b (inl e) = e ∙ h x (inl refl)
AllDashes-map (x ∷ rs) h b (inr i) = AllDashes-map rs (λ r j. h r (inr j)) b i

instance_name-none : (d s : Str) → instance_name d s ≡ none → s ≡ []
unfolding instance_name
instance_name-none d [] h = refl
instance_name-none d (b ∷ bs) h = cc

length-append_ge : (d s : Str) → length d + length s ≤ length (d ++ s)
length-append_ge [] s = omega arith
length-append_ge (c ∷ d) s = omega (arith, length-append_ge d s)

take-full : (d s : Str) → 52 ≤ length d → take 63 (full d s) ≡ take 63 (full d [])
unfolding take
take-full d s long =
    ap (λ (t : Str). agent_name_prefix ++ (str "-" ++ t)) (take-front 53 d s (omega arith))

cut_name :
    (d s a : Str)
    → 52 ≤ length d
    → instance_name d s ≡ some a
    → a ≡ trim_right (take 63 (full d []))
unfolding instance_name
cut_name d [] a long h = cc
cut_name d (b ∷ bs) a long h =
    let long_name : ltb max_agent_name_length (length (full d (b ∷ bs))) ≡ true =
      ground (arith, length-append_ge d (dash ∷ b ∷ bs)) in
    sym (value (rw long_name at h)) ∙ ap trim_right (take-full d (b ∷ bs) long)
  where
    value : {x y : Str} → some x ≡ some y → x ≡ y
    value e = cc

-- A device has no agent name exactly where every character of its serial number is one that
-- `sanitize_rune` makes a dash of.
agent_instance_name-none :
    (d : Str) (serial : List ℕ)
    → (agent_instance_name d serial ≡ none) ↔ ((r : ℕ) → In r serial → sanitize_rune r ≡ dash)
unfolding agent_instance_name sanitize_name_segment AllDashes
agent_instance_name-none d serial = (
  λ h r i.
      AllDashes-trim (map sanitize_rune serial)
        (instance_name-none d (sanitize_name_segment serial) h) (sanitize_rune r)
        (In-map r serial i),
  λ h.
      subst (λ t. instance_name d (trim_right t) ≡ none)
        (sym (trim_left-AllDashes (map sanitize_rune serial) (AllDashes-map serial h)))
        (unfold trim_right instance_name in refl),
)

-- The names of two devices of one long device name are one, whatever their serial numbers are: of a
-- device name of 52 bytes or more, the serial number is cut off.
pub agent_instance_name_collides :
    (d a b : Str) (serial other : List ℕ)
    → 52 ≤ length d
    → agent_instance_name d serial ≡ some a
    → agent_instance_name d other ≡ some b
    → a ≡ b
unfolding agent_instance_name
agent_instance_name_collides d a b serial other long h k =
    cut_name d (sanitize_name_segment serial) a long h
    ∙ sym (cut_name d (sanitize_name_segment other) b long k)

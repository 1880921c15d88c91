-- ===== src/Mirror/Plan/Targets.antt =====
-- Which devices a mirror plan writes to, and of what type the plan is.
use hsm_secrets_operator.Common.{
  ◌≡◌, refl, sym, ap, subst, ◌∙◌, ◌↔◌, ◌⊎◌, inl, inr, List, [], ◌∷◌, ◌++◌, true, false, not, ◌&&◌,
  Bool-cases, if◌then◌else◌, In, Str, str_eq, str_eq_iff, Dict, arith,
}
use hsm_secrets_operator.Reconcile.{Decision}
use hsm_secrets_operator.Mirror.{SecretState, SecretMirrorPlan, skip}
use hsm_secrets_operator.Mirror.Plan.{
  is_nil, contains, remove_seen, remove_duplicates, remove_device, sync_type, plan_for,
}

contains_iff : (d : Str) (xs : List Str) → (contains d xs ≡ true) ↔ In d xs
unfolding contains
contains_iff d [] = (λ h. cc, λ m. absurd m)
contains_iff d (x ∷ xs) = elim (Bool-cases (str_eq x d)) [
  | inl y ↦ rw y (λ h. inl (sym ((str_eq_iff x d).0 y)), λ m. refl)
  | inr n ↦ rw n (
    λ h. inr ((contains_iff d xs).0 h),
    λ m. elim m [ inl e ↦ cc (n, (str_eq_iff x d).1 (sym e)) | inr r ↦ (contains_iff d xs).1 r ],
  )
]

module _ (x : Str) (seen xs : List Str) where
  remove_seen-drops : contains x seen ≡ true → remove_seen seen (x ∷ xs) ≡ remove_seen seen xs
  unfolding remove_seen
  remove_seen-drops h = ground arith

  remove_seen-keeps :
      contains x seen ≡ false → remove_seen seen (x ∷ xs) ≡ x ∷ remove_seen (x ∷ seen) xs
  unfolding remove_seen
  remove_seen-keeps h = ground arith

In-remove_seen :
    (d : Str) (seen xs : List Str) → In d (remove_seen seen xs) ↔ (In d xs × ¬ (In d seen))
In-remove_seen d seen [] = unfold remove_seen in (λ m. absurd m, λ h. absurd h.0)
In-remove_seen d seen (x ∷ xs) = elim (Bool-cases (contains x seen)) [
  | inl y ↦ rw (remove_seen-drops x seen xs y) (
    λ m. let (i, n) = (In-remove_seen d seen xs).0 m in (inr i, n),
    λ h. elim h.0 [
      | inl f ↦ absurd (h.1 (subst (λ z. In z seen) (sym f) ((contains_iff x seen).0 y)))
      | inr i ↦ (In-remove_seen d seen xs).1 (i, h.1)
    ],
  )
  | inr n ↦
      let rest = In-remove_seen d (x ∷ seen) xs in
      rw (remove_seen-keeps x seen xs n) (
        λ m. elim m [
          | inl e ↦ (inl e, λ i. cc (n, (contains_iff x seen).1 (subst (λ z. In z seen) e i)))
          | inr r ↦ let (i, out) = rest.0 r in (inr i, λ j. out (inr j))
        ],
        λ h. elim h.0 [
          | inl e ↦ inl e
          | inr i ↦ elim (Bool-cases (str_eq d x)) [
            | inl same ↦ inl ((str_eq_iff d x).0 same)
            | inr other ↦ inr (
                rest.1
                  (i, λ j. elim j [ inl e ↦ cc (other, (str_eq_iff d x).1 e) | inr k ↦ h.1 k ]))
          ]
        ],
      )
]

-- No string stands twice.
abbrev pub Unique : List Str → Type 0
Unique [] = Unit
Unique (x ∷ xs) = ¬ (In x xs) × Unique xs

remove_seen-Unique : (seen xs : List Str) → Unique (remove_seen seen xs)
remove_seen-Unique seen [] = unfold remove_seen in tt
remove_seen-Unique seen (x ∷ xs) = elim (Bool-cases (contains x seen)) [
  | inl y ↦ rw (remove_seen-drops x seen xs y) (remove_seen-Unique seen xs)
  | inr n ↦
      rw (remove_seen-keeps x seen xs n)
        (λ m. ((In-remove_seen x (x ∷ seen) xs).0 m).1 (inl refl), remove_seen-Unique (x ∷ seen) xs)
]

In-remove_device : (d r : Str) (ds : List Str) → In d (remove_device ds r) ↔ (In d ds × ¬ (d ≡ r))
unfolding remove_device
In-remove_device d r [] = (λ m. absurd m, λ h. absurd h.0)
In-remove_device d r (x ∷ xs) = elim (Bool-cases (str_eq x r)) [
  | inl y ↦ rw y (
    λ m. let (i, n) = (In-remove_device d r xs).0 m in (inr i, n),
    λ h. elim h.0 [
      | inl e ↦ absurd (h.1 (e ∙ (str_eq_iff x r).0 y))
      | inr i ↦ (In-remove_device d r xs).1 (i, h.1)
    ],
  )
  | inr n ↦ rw n (
    λ m. elim m [
      | inl e ↦ (inl e, λ f. cc (n, (str_eq_iff x r).1 (sym e ∙ f)))
      | inr q ↦ let (i, ne) = (In-remove_device d r xs).0 q in (inr i, ne)
    ],
    λ h. elim h.0 [ inl e ↦ inl e | inr i ↦ inr ((In-remove_device d r xs).1 (i, h.1)) ],
  )
]

remove_device-Unique : (r : Str) (ds : List Str) → Unique ds → Unique (remove_device ds r)
unfolding remove_device
remove_device-Unique r [] u = tt
remove_device-Unique r (x ∷ xs) u = elim (Bool-cases (str_eq x r)) [
  | inl y ↦ rw y (remove_device-Unique r xs u.1)
  | inr n ↦ rw n (λ m. u.0 ((In-remove_device x r xs).0 m).0, remove_device-Unique r xs u.1)
]

In-append : (d : Str) (xs ys : List Str) → In d (xs ++ ys) ↔ (In d xs ⊎ In d ys)
In-append d [] ys = (λ m. inr m, λ h. elim h [ inl m ↦ absurd m | inr m ↦ m ])
In-append d (x ∷ xs) ys = (
  λ m. elim m [
    | inl e ↦ inl (inl e)
    | inr r ↦ elim ((In-append d xs ys).0 r) [ inl i ↦ inl (inr i) | inr j ↦ inr j ]
  ],
  λ h. elim h [
    | inl (inl e) ↦ inl e
    | inl (inr i) ↦ inr ((In-append d xs ys).1 (inl i))
    | inr j ↦ inr ((In-append d xs ys).1 (inr j))
  ],
)

-- The targets before the source is left out, and after.
abbrev targets_of : List Str → List Str → List Str → Str → List Str
targets_of ns nm outliers source = remove_device (remove_duplicates (ns ++ (nm ++ outliers))) source

In-targets_of :
    (d source : Str) (ns nm outliers : List Str)
    → In d (targets_of ns nm outliers source)
      ↔ ((In d ns ⊎ In d nm ⊎ In d outliers) × ¬ (d ≡ source))
unfolding remove_duplicates
In-targets_of d source ns nm outliers = (
  λ m.
      let (i, ne) = (In-remove_device d source _).0 m in
      let j = ((In-remove_seen d [] (ns ++ (nm ++ outliers))).0 i).0 in
      (
        elim ((In-append d ns (nm ++ outliers)).0 j) [
          | inl a ↦ inl a
          | inr b ↦ inr ((In-append d nm outliers).0 b)
        ],
        ne,
      ),
  λ h. (In-remove_device d source _).1 (
    (In-remove_seen d [] (ns ++ (nm ++ outliers))).1 (
      (In-append d ns (nm ++ outliers)).1
          (elim h.0 [ inl a ↦ inl a | inr b ↦ inr ((In-append d nm outliers).1 b) ]),
      λ z. z,
    ),
    h.1,
  ),
)

targets_of-Unique :
    (ns nm outliers : List Str) (source : Str) → Unique (targets_of ns nm outliers source)
unfolding remove_duplicates
targets_of-Unique ns nm outliers source =
    remove_device-Unique source _ (remove_seen-Unique [] (ns ++ (nm ++ outliers)))

pub nil_of_is_nil : (xs : List Str) → is_nil xs ≡ true → xs ≡ []
nil_of_is_nil [] h = refl
nil_of_is_nil (x ∷ xs) h = cc

-- What `plan_for` promises of the plan for a source and three groups of devices.
pub record PlanFor (ns nm : List Str) (d : Decision) (p : SecretMirrorPlan) : Type 0 where
  pub source : p.source_device ≡ d.winning_device_id
  pub targets :
      (x : Str)
      → In x p.target_devices
        ↔ ((In x ns ⊎ In x nm ⊎ In x d.outliers) × ¬ (x ≡ d.winning_device_id))
  pub unique : Unique p.target_devices
  pub kind : p.mirror_type ≡ (if is_nil p.target_devices then skip else sync_type ns nm d.outliers)

pub plan_for-PlanFor :
    (path : Str) (states : Dict SecretState) (ns nm : List Str) (d : Decision)
    → (d.diverged ≡ false → d.outliers ≡ [])
    → PlanFor ns nm d (plan_for path states ns nm d)
unfolding plan_for
plan_for-PlanFor path states ns nm d agree =
    elim (Bool-cases (not d.diverged && is_nil ns && is_nil nm)) [
      | inl y ↦
          let e : ns ≡ [] = nil_of_is_nil ns (ground arith) in
          let f : nm ≡ [] = nil_of_is_nil nm (ground arith) in
          let g : d.outliers ≡ [] = agree (ground arith) in
          rw y (record {
            source = refl;
            targets = λ x. (
              λ m. absurd m,
              λ h. elim (rw (e, f, g) at h.0) [
                | inl m ↦ absurd m
                | inr (inl m) ↦ absurd m
                | inr (inr m) ↦ absurd m
              ],
            );
            unique = tt;
            kind = refl;
          })
      | inr n ↦ elim (Bool-cases (is_nil (targets_of ns nm d.outliers d.winning_device_id))) [
        | inl z ↦
            let none_left = nil_of_is_nil _ z in
            rw (n, z)
              (record {
                source = refl;
                targets = λ x.
                    subst
                      (λ t.
                        In x t
                        ↔ ((In x ns ⊎ In x nm ⊎ In x d.outliers) × ¬ (x ≡ d.winning_device_id)))
                      none_left (In-targets_of x d.winning_device_id ns nm d.outliers);
                unique = tt;
                kind = refl;
              })
        | inr s ↦
            rw (n, s)
              (record {
                source = refl;
                targets = λ x. In-targets_of x d.winning_device_id ns nm d.outliers;
                unique = targets_of-Unique ns nm d.outliers d.winning_device_id;
                kind = rw s;
              })
      ]
    ]

sync_type-ne-skip :
    (ns nm outliers : List Str)
    → sync_type ns nm outliers ≡ skip
    → (ns ≡ []) × (nm ≡ []) × (outliers ≡ [])
unfolding sync_type
sync_type-ne-skip [] [] [] h = (refl, refl, refl)
sync_type-ne-skip [] [] (x ∷ xs) h = cc
sync_type-ne-skip [] (x ∷ xs) outliers h = cc
sync_type-ne-skip (x ∷ xs) nm outliers h = cc

nil_of_no_member : {xs : List Str} → ((x : Str) → ¬ (In x xs)) → xs ≡ []
nil_of_no_member {xs = []} h = refl
nil_of_no_member {xs = x ∷ xs} h = absurd (h x (inl refl))

module _ (ns nm : List Str) (d : Decision) (p : SecretMirrorPlan) (f : PlanFor ns nm d p) where
  no_target : p.mirror_type ≡ skip → (x : Str) → ¬ (In x p.target_devices)
  no_target h x m = elim (Bool-cases (is_nil p.target_devices)) [
    | inl y ↦ subst (In x) (nil_of_is_nil _ y) m
    | inr n ↦
        let (a, b, c) = sync_type-ne-skip ns nm d.outliers (sym (rw n at f.kind) ∙ h) in
        elim ((f.targets x).0 m).0 [
          | inl i ↦ subst (In x) a i
          | inr (inl i) ↦ subst (In x) b i
          | inr (inr i) ↦ subst (In x) c i
        ]
  ]

  -- A plan is a skip exactly when it has no target.
  pub PlanFor-skip : (p.mirror_type ≡ skip) ↔ (p.target_devices ≡ [])
  PlanFor-skip = (
    λ h. nil_of_no_member (no_target h),
    λ e. f.kind ∙ ap (λ l. if is_nil l then skip else sync_type ns nm d.outliers) e,
  )

-- ===== src/Examples/Hardware.antt =====
-- A token in memory that works, and the results on the hardware client at it.
use hsm_secrets_operator.Common.{
  pos, negsuc, ℕ, zero, suc, ◌+◌, ◌≤◌, ◌==◌, ◌≡◌, ◌↔◌, refl, sym, ap, ◌∙◌, ◌⊎◌, inl, inr, List, [],
  ◌∷◌, ◌++◌, true, false, not, Option, none, some, map, if◌then◌else◌, get, Str, str, str_eq, In,
  Distinct, filter_by, length, Bool-cases, arith,
}
use hsm_secrets_operator.Hsm.{SecretData, SecretMetadata, default_config}
use hsm_secrets_operator.Hsm.Errors.{
  ok, err, secret_not_found, metadata_not_found, not_connected, ckr_other, ckr_device_removed,
  no_attempt,
}
use hsm_secrets_operator.Hsm.Token.{
  Reply, failed, given, Attribute, cka_label, cka_value, Pkcs11, Codec, Pkcs11Object, take,
  matching, Serves, LibraryTokenInfo,
}
use hsm_secrets_operator.Hsm.Session.{Session}
use hsm_secrets_operator.Hsm.Hardware.{
  Pkcs11Client, read_secret, write_secret, read_metadata, delete_secret, get_info, with_retry,
  has_suffix, label_of,
}
use hsm_secrets_operator.Hsm.Hardware.Labels.{IsApart}
use hsm_secrets_operator.Hsm.Hardware.Written.{IsPlain}
use hsm_secrets_operator.Hsm.Hardware.Laws.{IsReady}
use hsm_secrets_operator.Hsm.Hardware.Store.{
  Agrees, read_secret-write_secret, read_secret-delete_secret, delete_secret-longer,
}
use hsm_secrets_operator.Hsm.Hardware.Refine.{
  AreApart, Simulates, write_secret-Simulates, delete_secret-Simulates,
}
use hsm_secrets_operator.Hsm.Hardware.Retry.{Ends, with_retry-Ends}
use hsm_secrets_operator.Hsm.Hardware.Presence.{Reported, get_info-is_token_lost_error}
use hsm_secrets_operator.Hsm.Mock
use hsm_secrets_operator.Hsm.Mock.{MockClient}
use hsm_secrets_operator.Hsm.Calls.{Call}
use hsm_secrets_operator.Hsm.Session.Objects.{find_objects_pkcs11}
use hsm_secrets_operator.Hsm.Oids.{oid_plaintext, get_oid_for_data_type, get_data_type_for_oid}
use hsm_secrets_operator.Hsm.Oids.Laws.{get_data_type_for_oid-get_oid_for_data_type}
use hsm_secrets_operator.Examples.{differ}

-- The slots of the token, of which a handle is the place, and the search that is open.
record Memory : Type 0 where
  slots : List (Option (Str × List ℕ))
  searching : Option (Option Str)

unfoldable objects_from : ℕ → List (Option (Str × List ℕ)) → List Pkcs11Object
objects_from n [] = []
objects_from n (none ∷ slots) = objects_from (n + 1) slots
objects_from n (some (l, v) ∷ slots) =
    record { label = l; value = v; handle = n } ∷ objects_from (n + 1) slots

unfoldable clear : ℕ → ℕ → List (Option (Str × List ℕ)) → List (Option (Str × List ℕ))
clear h n [] = []
clear h n (x ∷ slots) = (if n == h then none else x) ∷ clear h (n + 1) slots

unfoldable attribute_of : Pkcs11Object → Attribute → List ℕ
attribute_of o cka_label = o.label
attribute_of o cka_value = o.value

unfoldable with_handle : ℕ → List Pkcs11Object → List Attribute → Reply (List (List ℕ))
unfolding attribute_of
with_handle h [] attributes = failed (ckr_other 130)
with_handle h (o ∷ os) attributes =
    let rest = with_handle h os attributes in
    if o.handle == h then given (map (attribute_of o) attributes) else rest

unfoldable found_in : Memory → ℕ → Option (Option Str) → Reply (List ℕ)
unfolding objects_from take
found_in t most none = failed (ckr_other 145)
found_in t most (some l) =
    given (map (λ o. o.handle) (take most (matching l (objects_from 1 t.slots))))

abbrev lost : LibraryTokenInfo
lost = record {
  label = [];
  manufacturer_id = [];
  model = [];
  serial_number = [];
  flags = 0;
  major = 0;
  minor = 0;
}

unfoldable memory : Pkcs11 Memory
unfolding objects_from clear with_handle found_in
memory = record {
  new = λ path t. (true, t);
  initialize = λ t. (given tt, t);
  finalize = λ t. (given tt, t);
  destroy = λ t. t;
  get_slot_list = λ t. (given (0 ∷ []), t);
  get_token_info = λ slot t. (failed ckr_device_removed, t);
  get_slot_info = λ slot t. (failed ckr_device_removed, t);
  open_session = λ slot t. (given 1, t);
  close_session = λ s t. (given tt, t);
  login = λ s pin t. (given tt, t);
  logout = λ s t. (given tt, t);
  set_pin = λ s old_pin new_pin t. (given tt, t);
  find_objects_init = λ s l t. (given tt, record t { searching = some l });
  find_objects = λ s most t. (found_in t most t.searching, t);
  find_objects_final = λ s t. (given tt, record t { searching = none });
  get_attribute_value = λ s h attributes t. (with_handle h (objects_from 1 t.slots) attributes, t);
  create_object = λ s made t. (
    given (1 + length t.slots),
    record t { slots = t.slots ++ (some (made.label, made.value) ∷ []) },
  );
  destroy_object = λ s h t. (given tt, record t { slots = clear h 1 t.slots });
}

above :
    (n : ℕ) (slots : List (Option (Str × List ℕ))) (o : Pkcs11Object)
    → In o (objects_from n slots)
    → n ≤ o.handle
unfolding objects_from
above n [] o m = absurd m
above n (none ∷ slots) o m = let ih = above (n + 1) slots o m in omega arith
above n (some (l, v) ∷ slots) o (inl e) = rw e (omega arith)
above n (some (l, v) ∷ slots) o (inr m) = let ih = above (n + 1) slots o m in omega arith

apart :
    (n : ℕ) (slots : List (Option (Str × List ℕ))) → Distinct (λ o. o.handle) (objects_from n slots)
unfolding objects_from
apart n [] = tt
apart n (none ∷ slots) = apart (n + 1) slots
apart n (some (l, v) ∷ slots) =
    (λ o m e. let le = above (n + 1) slots o m in absurd (omega arith), apart (n + 1) slots)

with_handle-In :
    (os : List Pkcs11Object) (o : Pkcs11Object) (attributes : List Attribute)
    → Distinct (λ o. o.handle) os
    → In o os
    → with_handle o.handle os attributes ≡ given (map (attribute_of o) attributes)
unfolding with_handle
with_handle-In [] o attributes d m = absurd m
with_handle-In (p ∷ os) o attributes d (inl e) = rw e (ground arith)
with_handle-In (p ∷ os) o attributes d (inr m) =
    let ih = with_handle-In os o attributes d.1 m in ground (arith, d.0 o m)

objects_from-append :
    (n : ℕ) (slots : List (Option (Str × List ℕ))) (l : Str) (v : List ℕ)
    → objects_from n (slots ++ (some (l, v) ∷ []))
      ≡ objects_from n slots ++ (record { label = l; value = v; handle = n + length slots } ∷ [])
unfolding objects_from
objects_from-append n [] l v =
    let e : n ≡ n + 0 = omega arith in ap (λ h. record { label = l; value = v; handle = h } ∷ []) e
objects_from-append n (none ∷ slots) l v =
    let e : n + 1 + length slots ≡ n + suc (length slots) = omega arith in
    objects_from-append (n + 1) slots l v
    ∙ ap (λ h. objects_from (n + 1) slots ++ (record { label = l; value = v; handle = h } ∷ [])) e
objects_from-append n (some (k, u) ∷ slots) l v =
    let e : n + 1 + length slots ≡ n + suc (length slots) = omega arith in
    ap (λ r. record { label = k; value = u; handle = n } ∷ r)
      (objects_from-append (n + 1) slots l v
        ∙ ap (λ h. objects_from (n + 1) slots ++ (record { label = l; value = v; handle = h } ∷ []))
            e)

objects_from-clear :
    (h n : ℕ) (slots : List (Option (Str × List ℕ)))
    → objects_from n (clear h n slots) ≡ filter_by (λ p. not (p.handle == h)) (objects_from n slots)
unfolding objects_from clear
objects_from-clear h n [] = refl
objects_from-clear h n (none ∷ slots) = elim (Bool-cases (n == h)) [
  | inl y ↦ rw y (objects_from-clear h (n + 1) slots)
  | inr n' ↦ rw n' (objects_from-clear h (n + 1) slots)
]
objects_from-clear h n (some (l, v) ∷ slots) = elim (Bool-cases (n == h)) [
  | inl y ↦ rw y (objects_from-clear h (n + 1) slots)
  | inr n' ↦ rw n' (
      ap (λ r. record { label = l; value = v; handle = n } ∷ r)
        (objects_from-clear h (n + 1) slots))
]

found_in_open :
    (t : Memory) (l : Option Str) (most : ℕ)
    → t.searching ≡ some l
    → found_in t most t.searching
      ≡ given (map (λ o. o.handle) (take most (matching l (objects_from 1 t.slots))))
unfolding found_in
found_in_open t l most e = rw e refl

memory-Serves : (s : ℕ) → Serves memory s
unfolding memory objects_from
memory-Serves s = record {
  objects = λ t. objects_from 1 t.slots;
  searching = λ t. t.searching;
  distinct = λ t. apart 1 t.slots;
  begins = λ t l idle. (record t { searching = some l }, refl, refl, refl);
  finds = λ t l most e. (t, ap (λ r. (r, t)) (found_in_open t l most e), refl, e);
  ends = λ t l e. (record t { searching = none }, refl, refl, refl);
  reads_label = λ t o m.
      ap (λ r. (r, t))
        (with_handle-In (objects_from 1 t.slots) o (cka_label ∷ []) (apart 1 t.slots) m);
  reads = λ t o m.
      ap (λ r. (r, t))
        (with_handle-In (objects_from 1 t.slots) o (cka_label ∷ cka_value ∷ []) (apart 1 t.slots)
          m);
  creates = λ t made idle. (
    1 + length t.slots,
    record t { slots = t.slots ++ (some (made.label, made.value) ∷ []) },
    refl,
    objects_from-append 1 t.slots made.label made.value,
    idle,
  );
  destroys = λ t o idle m. (
    record t { slots = clear o.handle 1 t.slots },
    refl,
    objects_from-clear o.handle 1 t.slots,
    idle,
  );
}

abbrev md : SecretMetadata
md = record {
  description = [];
  labels = none;
  format = [];
  data_type = [];
  created_at = [];
  source = [];
}

abbrev codec : Codec
codec = record {
  marshal_oid = λ oid. some oid;
  marshal = λ m. some (1 ∷ []);
  unmarshal = λ bytes. some md;
  trim_space = λ s. s;
  print_version = λ major minor. [];
}

abbrev session : Session
session = record { handle = 1; slot = 0 }

abbrev client : Pkcs11Client
client = record {
  config = default_config;
  session = some session;
  slot = 0;
  connected = true;
  data_objects = [];
}

abbrev memory_of : List (Option (Str × List ℕ)) → Memory
memory_of slots = record { slots = slots; searching = none }

abbrev secret : SecretData
secret = (str "data", 1 ∷ []) ∷ (str "user", 2 ∷ []) ∷ []

secret-IsPlain : IsPlain (str "app") secret
unfolding has_suffix label_of str_eq
secret-IsPlain = (
  (
    λ e m f. elim m [
      | inl g ↦ differ (str "user") (str "data") refl (sym (ap (λ x. x.0) g) ∙ f)
      | inr n ↦ absurd n
    ],
    (λ e m f. absurd m, tt),
  ),
  λ key value m. elim m [
    | inl e ↦ let k : key ≡ str "data" = ap (λ x. x.0) e in rw k (refl, refl)
    | inr (inl e) ↦ let k : key ≡ str "user" = ap (λ x. x.0) e in rw k (refl, refl)
    | inr (inr n) ↦ absurd n
  ],
)

-- "app" and "app2/x" with an empty key in the way
abbrev stored : Memory
stored =
    memory_of
      (some (str "app", 7 ∷ []) ∷ none ∷ some (str "app2/x", 8 ∷ []) ∷ some (str "db", 9 ∷ []) ∷ [])

read_secret-write_secret_example :
    let (r, world) = write_secret memory codec (str "app") secret (some md) (client, stored) in
    (r ≡ ok tt)
    × IsReady memory codec session (memory-Serves 1) world
    × (length ((memory-Serves 1).objects world.1)
        ≤ length ((memory-Serves 1).objects stored) + 2 + 1)
    × ((read_secret memory codec (str "app") world).0 ≡ ok secret)
    × ((read_metadata memory codec (str "app") world).0 ≡ ok md)
    × ((q : Str)
        → IsApart (str "app") q
        → Agrees memory codec session (memory-Serves 1) q world (client, stored))
unfolding memory-Serves objects_from
read_secret-write_secret_example =
    read_secret-write_secret memory codec session (memory-Serves 1) (str "app") secret md (1 ∷ [])
      client stored (refl, refl, refl) (omega arith) refl refl refl refl secret-IsPlain

read_secret-delete_secret_example :
    let (r, world) = delete_secret memory codec (str "app") (client, stored) in
    (r ≡ ok tt)
    × IsReady memory codec session (memory-Serves 1) world
    × (length ((memory-Serves 1).objects world.1) ≤ length ((memory-Serves 1).objects stored))
    × ((read_secret memory codec (str "app") world).0 ≡ err (secret_not_found (str "app")))
    × ((read_metadata memory codec (str "app") world).0 ≡ err (metadata_not_found (str "app")))
    × ((q : Str)
        → IsApart (str "app") q
        → Agrees memory codec session (memory-Serves 1) q world (client, stored))
unfolding memory-Serves objects_from
read_secret-delete_secret_example =
    read_secret-delete_secret memory codec session (memory-Serves 1) (str "app") client stored
      (refl, refl, refl) (omega arith)

delete_secret-longer_example :
    let (r, world) = delete_secret memory codec (str "app") (client, stored) in
    (r ≡ ok tt)
    × ((read_secret memory codec (str "app" ++ str "2") world).0
        ≡ err (secret_not_found (str "app" ++ str "2")))
unfolding memory-Serves objects_from
delete_secret-longer_example =
    delete_secret-longer memory codec session (memory-Serves 1) (str "app") (str "2") client stored
      (refl, refl, refl) (omega arith)

abbrev mock : MockClient
mock = record { connected = true; token_lost = false; secrets = []; metadata = []; config = none }

alone : AreApart (str "app" ∷ [])
alone p q (inl e) (inl f) = inl (e ∙ sym f)
alone p q (inr n) m = absurd n
alone p q (inl e) (inr n) = absurd n

empty-Simulates :
    Simulates memory codec session (memory-Serves 1) (str "app" ∷ []) (client, memory_of []) mock
unfolding memory-Serves memory objects_from read_secret read_metadata find_objects_pkcs11
    Mock.read_secret Mock.read_metadata get
empty-Simulates =
    (refl, (refl, refl, refl), λ q m. elim m [ inl e ↦ rw e (refl, refl) | inr n ↦ absurd n ])

write_secret-Simulates_example :
    let (r, world) =
      write_secret memory codec (str "app") secret (some md) (client, memory_of []) in
    let (r', m') = Mock.write_secret mock (str "app") secret (some md) in
    (r ≡ r') × Simulates memory codec session (memory-Serves 1) (str "app" ∷ []) world m'
unfolding memory-Serves objects_from
write_secret-Simulates_example =
    write_secret-Simulates memory codec session (memory-Serves 1) (str "app" ∷ []) (str "app")
      secret md (1 ∷ []) client (memory_of []) mock alone (inl refl) empty-Simulates (omega arith)
      refl refl refl refl secret-IsPlain

delete_secret-Simulates_example :
    let (r, world) = delete_secret memory codec (str "app") (client, memory_of []) in
    let (r', m') = Mock.delete_secret mock (str "app") in
    (r ≡ ok tt)
    × (((r' ≡ ok tt) × Simulates memory codec session (memory-Serves 1) (str "app" ∷ []) world m')
        ⊎ ((r' ≡ err (secret_not_found (str "app")))
            × (Mock.read_secret mock (str "app") ≡ err (secret_not_found (str "app")))))
unfolding memory-Serves objects_from
delete_secret-Simulates_example =
    delete_secret-Simulates memory codec session (memory-Serves 1) (str "app" ∷ []) (str "app")
      client (memory_of []) mock alone (inl refl) empty-Simulates (omega arith)

-- an operation that fails while a count lasts
abbrev counted : Call ℕ (Unit {0})
counted zero = (ok tt, 0)
counted (suc n) = (err not_connected, n)

with_retry-Ends_example :
    ((n : ℕ) × (pos 3 ≡ pos n)
      × Ends counted
          (λ n. (false, n))
          (pos n)
          (suc n)
          2
          (with_retry counted (λ n. (false, n)) default_config 2))
    ⊎ ((n : ℕ) × (pos 3 ≡ negsuc n)
        × (with_retry counted (λ n. (false, n)) default_config 2
            ≡ (err (no_attempt (negsuc n)), 2)))
unfolding default_config
with_retry-Ends_example = with_retry-Ends counted (λ n. (false, n)) default_config 2 (λ n. refl)

get_info-is_token_lost_error_example :
    Reported memory codec
      (str "app")
      secret
      (some md)
      (failed ckr_device_removed)
      (get_info memory codec (client, stored)).0
      (get_info memory codec (client, stored)).1
unfolding memory
get_info-is_token_lost_error_example =
    get_info-is_token_lost_error memory codec (str "app") secret (some md) client session stored
      refl refl

get_data_type_for_oid-get_oid_for_data_type_example :
    (get_oid_for_data_type (str "plaintext") ≡ ok oid_plaintext)
    ↔ (get_data_type_for_oid oid_plaintext ≡ ok (str "plaintext"))
get_data_type_for_oid-get_oid_for_data_type_example =
    get_data_type_for_oid-get_oid_for_data_type (str "plaintext") oid_plaintext

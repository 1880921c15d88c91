-- ===== src/Examples/Tokens.antt =====
-- The in-memory client and the checksum on small secrets.
use hsm_secrets_operator.Common.{
  ◌≡◌, refl, sym, ap, ◌∙◌, inl, inr, [], ◌∷◌, true, false, none, Permᴰ, Distinct, Str, str, str_eq,
}
use hsm_secrets_operator.Examples.{differ, golib}
use hsm_secrets_operator.Hsm.{SecretData, SecretMetadata, calculate_checksum}
use hsm_secrets_operator.Hsm.Checksum.{key, calculate_checksum-perm, calculate_checksum_ambiguous}
use hsm_secrets_operator.Hsm.Errors.{ok}
use hsm_secrets_operator.Hsm.Mock.{MockClient, list_secrets, has_prefix}

abbrev pair_data : SecretData
pair_data = (str "user", str "ada") ∷ (str "pin", str "1234") ∷ []

abbrev turned_data : SecretData
turned_data = (str "pin", str "1234") ∷ (str "user", str "ada") ∷ []

abbrev plain : SecretMetadata
plain = record {
  description = str "login";
  labels = none;
  format = [];
  data_type = [];
  created_at = [];
  source = [];
}

abbrev path : Str
path = str "app/login"

abbrev stored : MockClient
stored = record {
  connected = true;
  token_lost = false;
  secrets = (path, pair_data) ∷ [];
  metadata = [];
  config = none;
}

pair_data-Distinct : Distinct key pair_data
unfolding str_eq
pair_data-Distinct = (
  λ y m h. elim m [
    | inl e ↦ differ (str "pin") (str "user") refl (sym (ap key e) ∙ h)
    | inr n ↦ absurd n
  ],
  (λ y m h. absurd m, tt),
)

calculate_checksum-perm_example :
    calculate_checksum golib pair_data ≡ calculate_checksum golib turned_data
calculate_checksum-perm_example =
    calculate_checksum-perm golib pair_data turned_data pair_data-Distinct ∣ Permᴰ.swap refl refl ∣₁

calculate_checksum_ambiguous_example :
    calculate_checksum golib ((str "ab", str "c") ∷ [])
    ≡ calculate_checksum golib ((str "a", str "bc") ∷ [])
calculate_checksum_ambiguous_example = calculate_checksum_ambiguous golib (str "a") (str "c") 98

listed : list_secrets stored (str "app") ≡ ok (path ∷ [])
unfolding list_secrets has_prefix str_eq
listed = refl

-- ===== src/Watch/Secrets.antt =====
-- What the handler of new secrets does with the storage locations of their namespace.
use oadp_non_admin.Base.{
  String, Bool, ◌≡◌, refl, ap, ◌∙◌, true, false, Option, none, some, List, [], ◌∷◌, ◌==◌, ◌&&◌,
  keep, if◌then◌else◌,
}
use oadp_non_admin.Kube.Objects.{NamespacedName, BslSpec, SecretKeySelector}
use oadp_non_admin.Kube.Status.{NonAdminBackupStorageLocation}
use oadp_non_admin.Kube.Api.{Prog, ret, panic, deref, ◌>>=◌}
use oadp_non_admin.Watch.Storage.{key_of, secret_requests}

-- The name of the secret that a storage location names, where it names one.
abbrev secret_of_spec : Option BslSpec → Option String
secret_of_spec none = none
secret_of_spec (some spec) = elim spec.credential [
  | none ↦ none
  | some credential ↦ some credential.name
]

abbrev pub secret_of : NonAdminBackupStorageLocation → Option String
secret_of nabsl = secret_of_spec nabsl.bsl_spec

abbrev is_some : Option String → Bool
is_some none = false
is_some (some _) = true

abbrev is_name : String → Option String → Bool
is_name secret none = false
is_name secret (some name) = name == secret

abbrev pub all_name_one : List NonAdminBackupStorageLocation → Bool
all_name_one [] = true
all_name_one (nabsl ∷ nabsls) = is_some (secret_of nabsl) && all_name_one nabsls

abbrev pub keys_of : List NonAdminBackupStorageLocation → List NamespacedName
keys_of [] = []
keys_of (nabsl ∷ nabsls) = key_of nabsl.meta ∷ keys_of nabsls

abbrev pub uses : String → NonAdminBackupStorageLocation → Bool
uses secret nabsl = is_name secret (secret_of nabsl)

abbrev described : Bool → List NamespacedName → Prog (List NamespacedName)
described t requests = if t then ret requests else panic

-- One round of the loop, by what is known of the credential.
abbrev round :
    String
    → NamespacedName
    → Option String
    → Prog (List NamespacedName)
    → Prog (List NamespacedName)
round secret key none rest = panic
round secret key (some name) rest =
    if name == secret then (rest >>= λ requests. ret (key ∷ requests)) else rest

described_found :
    (b t : Bool) (key : NamespacedName) (nabsl : NonAdminBackupStorageLocation)
    (nabsls : List NonAdminBackupStorageLocation)
    → key ≡ key_of nabsl.meta
    → (if b
        then (described t (keys_of nabsls) >>= λ requests. ret (key ∷ requests))
        else described t (keys_of nabsls))
      ≡ described t (keys_of (if b then nabsl ∷ nabsls else nabsls))
described_found true true key nabsl nabsls e = ap (λ k. ret (k ∷ keys_of nabsls)) e
described_found true false key nabsl nabsls e = refl
described_found false t key nabsl nabsls e = refl

round-described :
    (secret : String) (nabsl : NonAdminBackupStorageLocation) (found : Option String) (t : Bool)
    (nabsls : List NonAdminBackupStorageLocation)
    → round secret (key_of nabsl.meta) found (described t (keys_of nabsls))
      ≡ described
          (is_some found && t)
          (keys_of (if is_name secret found then nabsl ∷ nabsls else nabsls))
round-described secret nabsl none t nabsls = refl
round-described secret nabsl (some name) t nabsls =
    described_found (name == secret) t (key_of nabsl.meta) nabsl nabsls refl

read :
    (secret : String) (key : NamespacedName) (spec : Option BslSpec)
    (rest : Prog (List NamespacedName))
    → (deref spec >>= λ spec. deref spec.credential >>= λ credential.
        if credential.name == secret then (rest >>= λ requests. ret (key ∷ requests)) else rest)
      ≡ round secret key (secret_of_spec spec) rest
read secret key none rest = refl
read secret key (some spec) rest = read_credential spec.credential
  where
    read_credential :
        (credential : Option SecretKeySelector)
        → (deref credential >>= λ credential.
            if credential.name == secret then (rest >>= λ requests. ret (key ∷ requests)) else rest)
          ≡ round secret key
              (elim credential [ none ↦ none | some credential ↦ some credential.name ])
              rest
    read_credential none = refl
    read_credential (some credential) = refl

-- Where each storage location has a credential, the requests are for those whose credential is the
-- secret, in their order. Where one has no spec or no credential, the handler panics, whatever
-- secret has been created.
pub secret_requests_exact :
    (secret : String) (nabsls : List NonAdminBackupStorageLocation)
    → secret_requests secret nabsls
      ≡ (if all_name_one nabsls then ret (keys_of (keep (uses secret) nabsls)) else panic)
unfolding secret_requests
secret_requests_exact secret [] = refl
secret_requests_exact secret (nabsl ∷ nabsls) =
    read secret (key_of nabsl.meta) nabsl.bsl_spec (secret_requests secret nabsls)
    ∙ ap (round secret (key_of nabsl.meta) (secret_of nabsl)) (secret_requests_exact secret nabsls)
    ∙ round-described secret nabsl (secret_of nabsl) (all_name_one nabsls)
        (keep (uses secret) nabsls)

-- ===== src/Startup/Configured.antt =====
-- The operations that the start (cmd/run.go) hands to the manager, against the configuration.
use comin.Base.{
  ◌≡◌, ◌≢◌, refl, ◌∙◌, inl, inr, some, List, [], ◌∷◌, String, ◌==◌, eq_iff, insert, lookup,
  lookup-insert, All, Bool-cases,
}
use comin.Config.{RemoteConfig}
use comin.Repository.Opening.Remotes.{HasDistinctNames}
use comin.Manager.{Operations, get_operation}
use comin.Startup.{branch_operations, configuration_operations}

-- The two branches of a remote have different names.
abbrev pub HasDistinctBranches : RemoteConfig → Type 0
HasDistinctBranches c = c.branches.testing.branch_name ≢ c.branches.main.branch_name

-- The manager finds the operations of the configuration.
pub record IsConfigured (operations : Operations) (c : RemoteConfig) : Type 0 where
  pub main_found :
      get_operation operations c.remote_name c.branches.main.branch_name ≡ c.branches.main.operation
  pub testing_found :
      get_operation operations c.remote_name c.branches.testing.branch_name
      ≡ c.branches.testing.operation

lookup_other {ℓ} :
    {A : Type ℓ} (key other : String) (value : A) (entries : List (String × A))
    → key ≢ other
    → lookup other (insert key value entries) ≡ lookup other entries
lookup_other key other value entries h = elim (Bool-cases (key == other)) [
  | inl same ↦ absurd (h ((eq_iff key other).0 same))
  | inr t ↦ lookup-insert key other value entries ∙ rw t refl
]

lookup_same {ℓ} :
    {A : Type ℓ} (key : String) (value : A) (entries : List (String × A))
    → lookup key (insert key value entries) ≡ some value
lookup_same key value entries =
    lookup-insert key key value entries ∙ rw ((eq_iff key key).1 refl) refl

loop-others :
    (operations : Operations) (remotes : List RemoteConfig) (name : String)
    → All (λ (d : RemoteConfig). d.remote_name ≢ name) remotes
    → lookup name (configuration_operations operations remotes) ≡ lookup name operations
unfolding configuration_operations
loop-others operations [] name h = refl
loop-others operations (c ∷ rest) name (h, more) =
    loop-others (insert c.remote_name (branch_operations c) operations) rest name more
    ∙ lookup_other c.remote_name name (branch_operations c) operations h

loop-found :
    (operations : Operations) (remotes : List RemoteConfig)
    → HasDistinctNames remotes
    → All
        (λ (c : RemoteConfig).
          lookup c.remote_name (configuration_operations operations remotes)
          ≡ some (branch_operations c))
        remotes
unfolding configuration_operations
loop-found operations [] distinct = tt
loop-found operations (c ∷ rest) (names, distinct) =
    let operations' = insert c.remote_name (branch_operations c) operations in
    (
      loop-others operations' rest c.remote_name names
          ∙ lookup_same c.remote_name (branch_operations c) operations,
      loop-found operations' rest distinct,
    )

get_operation_found :
    (operations : Operations) (remote branch operation : String) (branches : List (String × String))
    → lookup remote operations ≡ some branches
    → lookup branch branches ≡ some operation
    → get_operation operations remote branch ≡ operation
unfolding get_operation
get_operation_found operations remote branch operation branches h h₁ =
    simp (h, h₁, get_operation) refl

found-IsConfigured :
    (operations : Operations) (c : RemoteConfig)
    → HasDistinctBranches c
    → lookup c.remote_name operations ≡ some (branch_operations c)
    → IsConfigured operations c
unfolding branch_operations
found-IsConfigured operations c distinct h =
    let main = c.branches.main in
    let testing = c.branches.testing in
    let with_main = insert main.branch_name main.operation [] in
    record {
      main_found =
          get_operation_found operations c.remote_name main.branch_name main.operation _ h (
            lookup_other testing.branch_name main.branch_name testing.operation with_main distinct
            ∙ lookup_same main.branch_name main.operation []);
      testing_found =
          get_operation_found operations c.remote_name testing.branch_name testing.operation _ h
            (lookup_same testing.branch_name testing.operation with_main);
    }

All-both {ℓ κ ι μ} :
    {A : Type ℓ} {P : A → Type κ} {Q : A → Type ι} {S : A → Type μ}
    → ((a : A) → P a → Q a → S a)
    → (l : List A) → All P l
    → All Q l
    → All S l
All-both f [] h h₁ = tt
All-both f (a ∷ l) (h, more) (h₁, more₁) = (f a h h₁, All-both f l more more₁)

pub configuration_operations-IsConfigured :
    (remotes : List RemoteConfig)
    → HasDistinctNames remotes
    → All HasDistinctBranches remotes
    → All (IsConfigured (configuration_operations [] remotes)) remotes
configuration_operations-IsConfigured remotes names branches =
    All-both (found-IsConfigured (configuration_operations [] remotes)) remotes branches
      (loop-found [] remotes names)

-- ===== src/Store/Deployments/Live.antt =====
-- A deployment that is under way stays in the store until it is finished.
use comin.Base.{
  ◌<◌, ◌≡◌, refl, sym, ap, ◌∙◌, ◌≢◌, inl, inr, true, false, Option, some, List, [], ◌∷◌, String,
  ◌==◌, eq_iff, eq_refl, arith, All, All-append, All-mono, Bool-cases, Distinct, contains,
}
use comin.Types.{Deployment, as_time}
use comin.Store.{Store}
use comin.Store.Retention.{Booted, Capacities, has_uuid, booted_dummy, switched_dummy, retention}
use comin.Store.Retention.Sorting.{Sorter}
use comin.Store.Retention.Newest.{IsOther, IsOther-NotAfter, retention_keeps_newest}
use comin.Store.Retention.Entries.{uuids, retention_entries}
use comin.Store.Deployments.{
  capacities, deployment_get, set_deployment, retained_persisted, update_data_deployments,
}

-- `d` is in the list, as its newest, and no two deployments of the list have one uuid.
pub record IsLive (d : Deployment) (l : List Deployment) : Type 0 where
  pub listed : has_uuid l d.uuid ≡ true
  pub others : All (IsOther d) l
  pub distinct : Distinct (uuids l)

-- The two uuids that `retention` may hand out are not in use.
pub record AreFresh (d : Deployment) (l : List Deployment) (b : Booted) : Type 0 where
  pub unused : All (λ e. e.uuid ≢ b.switched_uuid) l
  pub apart : b.boot_uuid ≢ b.switched_uuid
  pub boot_ne : b.boot_uuid ≢ d.uuid
  pub switched_ne : b.switched_uuid ≢ d.uuid

pub retention-IsLive :
    (sorter : Sorter) (d : Deployment) (l : List Deployment) (b : Booted) (capacity : Capacities)
    → 0 < capacity.any
    → 0 < as_time d.created_at
    → AreFresh d l b
    → All (IsOther d) l
    → IsLive d (retention sorter l (some d) b capacity).dpls
unfolding booted_dummy switched_dummy
retention-IsLive sorter d l b capacity room late fresh others =
    let (distinct, _, kept) =
      retention_entries sorter (IsOther d) l (some d) b capacity
        (All-append _ l _ fresh.unused ((λ e. fresh.switched_ne (sym e)), tt)) fresh.apart
        (All-append _ l _ others (inl refl, tt)) (inr (fresh.boot_ne, late))
        (inr (fresh.switched_ne, late)) in
    record {
      listed =
          retention_keeps_newest sorter d l b capacity room late
            (All-mono (IsOther-NotAfter d) l others);
      others = kept;
      distinct = distinct;
    }

deployment_get_of :
    (d : Deployment) (l : List Deployment)
    → has_uuid l d.uuid ≡ true
    → All (IsOther d) l
    → deployment_get l d.uuid ≡ some d
deployment_get_of d [] h o = absurd (cc)
deployment_get_of d (x ∷ l) h o = elim o.0 [
  | inl e ↦ rw (e, eq_refl d.uuid)
  | inr other ↦ ground (arith, eq_iff x.uuid d.uuid, other.0, deployment_get_of d l)
]

pub deployment_get-IsLive :
    (d : Deployment) (l : List Deployment) → IsLive d l → deployment_get l d.uuid ≡ some d
deployment_get-IsLive d l h = deployment_get_of d l h.listed h.others

-- No other deployment has the uuid, so the write replaces `d`.
module _ (d d' : Deployment) (same : d'.uuid ≡ d.uuid) (age : d'.created_at ≡ d.created_at) where
  rest_others :
      (l : List Deployment)
      → contains (uuids l) d.uuid ≡ false
      → All (IsOther d) l
      → All (IsOther d') l
  rest_others [] h o = tt
  rest_others (x ∷ l) h o = (
    elim o.0 [
      | inl e ↦ absurd (ground (arith, eq_iff x.uuid d.uuid, ap (λ (t : Deployment). t.uuid) e))
      | inr other ↦ inr (rw same other.0, rw age other.1)
    ],
    rest_others l (ground arith) o.1,
  )

  set_deployment-others :
      (l : List Deployment)
      → Distinct (uuids l)
      → All (IsOther d) l
      → All (IsOther d') (set_deployment l d.uuid d')
  unfolding set_deployment
  set_deployment-others [] h o = tt
  set_deployment-others (x ∷ l) h o = elim (Bool-cases (x.uuid == d.uuid)) [
    | inl hit ↦ rw hit (inl refl, rest_others l (rw ((eq_iff x.uuid d.uuid).0 hit) at h.0) o.1)
    | inr miss ↦ rw miss (
      elim o.0 [
        | inl e ↦ absurd (ground (arith, eq_iff x.uuid d.uuid, ap (λ (t : Deployment). t.uuid) e))
        | inr other ↦ inr (rw same other.0, rw age other.1)
      ],
      set_deployment-others l h.1 o.1,
    )
  ]

set_deployment-unused :
    (u uuid : String) (v : Deployment) (l : List Deployment)
    → v.uuid ≢ u
    → All (λ e. e.uuid ≢ u) l
    → All (λ e. e.uuid ≢ u) (set_deployment l uuid v)
unfolding set_deployment
set_deployment-unused u uuid v [] n h = tt
set_deployment-unused u uuid v (x ∷ l) n h = elim (Bool-cases (x.uuid == uuid)) [
  | inl hit ↦ rw hit (n, h.1)
  | inr miss ↦ rw miss (h.0, set_deployment-unused u uuid v l n h.1)
]

pub update-persisted :
    (sorter : Sorter) (s : Store) (b : Booted) (new : Option Deployment)
    → (update_data_deployments sorter s b new).persisted
      ≡ retained_persisted s.persisted
          (retention sorter s.persisted.deployments new b (capacities s.persisted))
unfolding update_data_deployments
update-persisted sorter s b new = refl

abbrev pub dpls_of : Store → List Deployment
dpls_of s = s.persisted.deployments

-- The deployment is live in the store, and the store may keep one of any status.
abbrev pub LiveIn : Deployment → Store → Type 0
LiveIn d s =
    IsLive d (dpls_of s) × (0 < s.persisted.deployment_any_capacity) × (0 < as_time d.created_at)

module _ (sorter : Sorter) where
  pub update-LiveIn :
      (s : Store) (b : Booted) (d : Deployment)
      → 0 < s.persisted.deployment_any_capacity
      → 0 < as_time d.created_at
      → AreFresh d (dpls_of s) b
      → All (IsOther d) (dpls_of s)
      → LiveIn d (update_data_deployments sorter s b (some d))
  unfolding retained_persisted
  update-LiveIn s b d room late fresh others = rw (update-persisted sorter s b (some d)) (
    retention-IsLive sorter d (dpls_of s) b (capacities s.persisted) room late fresh others,
    room,
    late,
  )

  -- A write of `d'` over the live `d`, and the run of `retention` that follows it.
  pub rewrite-LiveIn :
      (s s' : Store) (b : Booted) (d d' : Deployment)
      → d'.uuid ≡ d.uuid
      → d'.created_at ≡ d.created_at
      → s'.persisted ≡ record (s.persisted) { deployments = set_deployment (dpls_of s) d.uuid d' }
      → LiveIn d s
      → AreFresh d (dpls_of s) b
      → LiveIn d' (update_data_deployments sorter s' b (some d'))
  rewrite-LiveIn s s' b d d' same age e (live, room, late) fresh =
      update-LiveIn s' b d' (rw e room) (rw age late)
        (record {
          unused = rw e (
              set_deployment-unused b.switched_uuid d.uuid d' (dpls_of s)
                (λ h. fresh.switched_ne (sym h ∙ same)) fresh.unused);
          apart = fresh.apart;
          boot_ne = rw same fresh.boot_ne;
          switched_ne = rw same fresh.switched_ne;
        })
        (rw e (set_deployment-others d d' same age (dpls_of s) live.distinct live.others))

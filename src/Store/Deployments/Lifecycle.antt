-- ===== src/Store/Deployments/Lifecycle.antt =====
-- A deployment from `NewDeployment` through `DeploymentStarted` to `DeploymentFinished`.
use comin.Base.{ℕ, ◌<◌, ◌≡◌, refl, sym, subst, ◌≢◌, inr, Bool, none, some, String, All, All-mono}
use comin.Types.{Generation, Deployment, Error, as_time, Event, Inhibitors}
use comin.Store.{Store, Persisted, commit, publish}
use comin.Store.Retention.{Booted}
use comin.Store.Retention.Sorting.{Sorter}
use comin.Store.Retention.Newest.{IsOther}
use comin.Store.Deployments.{
  set_deployment, deployment_get, update_data_deployments, started, finished, created, mark_started,
  mark_finished, deployment_started, deployment_finished, new_deployment,
}
use comin.Store.Deployments.Live.{
  IsLive, AreFresh, LiveIn, dpls_of, deployment_get-IsLive, update-LiveIn, rewrite-LiveIn,
}

commit-persisted : (s : Store) → (commit s).persisted ≡ s.persisted
unfolding commit
commit-persisted s = refl

-- The write of `d'` over `d`.
abbrev rewritten : Store → Deployment → Deployment → Store
rewritten s d d' = record s {
  persisted = record (s.persisted) {
    deployments = set_deployment s.persisted.deployments d.uuid d';
  };
}

finished_same :
    (err : Error) (restart : Bool) (path : String) (now : ℕ) (d : Deployment)
    → ((finished err restart path now d).uuid ≡ d.uuid)
      × ((finished err restart path now d).created_at ≡ d.created_at)
unfolding finished
finished_same none restart path now d = (refl, refl)
finished_same (some msg) restart path now d = (refl, refl)

module _ (sorter : Sorter) where
  -- A deployment made by `NewDeployment` is live, if its uuid is new, the clock is past all
  -- creation times of the store, and the store may keep one deployment of any status.
  pub new_deployment-LiveIn :
      (s : Store) (g : Generation) (operation reason : String) (b : Booted) (now : ℕ)
      (uuid : String) (current new : Inhibitors)
      → 0 < s.persisted.deployment_any_capacity
      → 0 < now
      → AreFresh (created g operation reason now uuid current new) (dpls_of s) b
      → All (λ e. (e.uuid ≢ uuid) × (as_time e.created_at < now)) (dpls_of s)
      → let (s', d) = new_deployment sorter s g operation reason b now uuid current new in
        LiveIn d s'
  unfolding new_deployment created
  new_deployment-LiveIn s g operation reason b now uuid current new room late fresh older =
      let d = created g operation reason now uuid current new in
      subst
        (λ (p : Persisted).
          IsLive d p.deployments × (0 < p.deployment_any_capacity) × (0 < as_time d.created_at))
        (sym (commit-persisted (update_data_deployments sorter s b (some d))))
        (update-LiveIn sorter s b d room late fresh (
          All-mono {P = λ e. (e.uuid ≢ uuid) × (as_time e.created_at < now)} {R = IsOther d}
            (λ e h. inr h) (dpls_of s) older))

  mark_started-LiveIn :
      (s : Store) (d : Deployment) (b : Booted) (now : ℕ)
      → LiveIn d s
      → AreFresh d (dpls_of s) b
      → LiveIn (started now d) (mark_started sorter s b now d)
  unfolding mark_started publish started
  mark_started-LiveIn s d b now live fresh =
      rewrite-LiveIn sorter s
        (publish (rewritten s d (started now d)) (Event.deployment_started (started now d))) b d
        (started now d) refl refl refl live fresh

  mark_finished-LiveIn :
      (s : Store) (d : Deployment) (err : Error) (restart : Bool) (path : String) (b : Booted)
      (now : ℕ)
      → LiveIn d s
      → AreFresh d (dpls_of s) b
      → LiveIn (finished err restart path now d) (mark_finished sorter s err restart path b now d)
  unfolding mark_finished publish
  mark_finished-LiveIn s d err restart path b now live fresh =
      let (same, age) = finished_same err restart path now d in
      let d' = finished err restart path now d in
      rewrite-LiveIn sorter s (publish (rewritten s d d') (Event.deployment_finished d')) b d d'
        same age refl live fresh

  -- For a live deployment `DeploymentStarted` reports no error. It leaves the deployment live, with
  -- its start and the status running written into it.
  pub deployment_started-LiveIn :
      (s : Store) (d : Deployment) (b : Booted) (now : ℕ)
      → LiveIn d s
      → AreFresh d (dpls_of s) b
      → let (s', err) = deployment_started sorter s d.uuid b now in
        (err ≡ none)
        × LiveIn (started now d) s'
        × (deployment_get (dpls_of s') d.uuid ≡ some (started now d))
  unfolding deployment_started started
  deployment_started-LiveIn s d b now live fresh =
      let after = mark_started-LiveIn s d b now live fresh in
      rw (deployment_get-IsLive d (dpls_of s) live.0, deployment_started)
        (refl, after, deployment_get-IsLive (started now d) _ after.0)

  -- For a live deployment `DeploymentFinished` reports no error. It leaves the deployment in the
  -- list, with its end, its profile path and its outcome written into it.
  pub deployment_finished-LiveIn :
      (s : Store) (d : Deployment) (err : Error) (restart : Bool) (path : String) (b : Booted)
      (now : ℕ)
      → LiveIn d s
      → AreFresh d (dpls_of s) b
      → let (s', failure) = deployment_finished sorter s d.uuid err restart path b now in
        (failure ≡ none)
        × LiveIn (finished err restart path now d) s'
        × (deployment_get (dpls_of s') d.uuid ≡ some (finished err restart path now d))
  unfolding deployment_finished
  deployment_finished-LiveIn s d err restart path b now live fresh =
      let after = mark_finished-LiveIn s d err restart path b now live fresh in
      rw (deployment_get-IsLive d (dpls_of s) live.0, deployment_finished) (refl, after, found)
    where
      s'' : Store
      s'' = mark_finished sorter s err restart path b now d

      d' : Deployment
      d' = finished err restart path now d

      found : deployment_get (dpls_of s'') d.uuid ≡ some d'
      found =
          subst (λ u. deployment_get (dpls_of s'') u ≡ some d')
            (finished_same err restart path now d).0
            (deployment_get-IsLive d' (dpls_of s'')
              (mark_finished-LiveIn s d err restart path b now live fresh).0)

-- ===== src/Postgres/Resources/Syncing.antt =====
-- internal/store/postgres/resource_store.go: `SyncOne`, and core/sync.go: the threads of `RunSyncer`.
use entropy.Base.{ℕ, zero, suc, String, false, ◌≡◌, refl, Option, some, List, [], if◌then◌else◌}
use entropy.Base.Dict.{Dict}
use entropy.Errors.{GoError, no_rows, is}
use entropy.Io.{Result, ok, err, Call, Go, pure, fail, attempt, ◌>>=◌, ◌>>◌}
use entropy.Io.Total.{Total, Anything}
use entropy.Resource.{Resource}
use entropy.Postgres.{Tables}
use entropy.Postgres.Resources.{Store, get_by_urn}
use entropy.Postgres.Resources.Writes.{update}
use entropy.Postgres.Resources.Due.{fetch_resource_for_sync, run_heartbeat}

-- `resource.SyncFn`, in the world of the tables and of what else the function acts on
abbrev pub SyncFn : Type 0 → Type 0
SyncFn V = Resource → Go (Tables × V) Resource

module _ {V : Type 0} where
  abbrev pub beside : {A : Type 0} → V → Result A × Tables → Option (Result A × (Tables × V))
  beside v (r, t) = some (r, (t, v))

  -- a call of the store
  abbrev pub on_tables : {A : Type 0} → Call Tables A → Go (Tables × V) A
  on_tables m (t, v) = beside v (m t)

  -- the ticks of the heartbeat are taken to come before what the function does to the tables
  unfoldable pub handle_dequeued : Store → Resource → SyncFn V → Go (Tables × V) Resource
  handle_dequeued st res fn (t, v) = fn res (run_heartbeat st st.ticks res.urn t, v)

  abbrev pub synced : Store → SyncFn V → Result String → Go (Tables × V) (Unit {0})
  synced st fn (err e) = if is e no_rows then pure tt else fail e
  synced st fn (ok urn) = do
    cur ← on_tables (get_by_urn st urn)
    res ← handle_dequeued st cur fn
    on_tables (update st res false "sync" [])

  unfoldable pub sync_one : Store → Dict (List String) → SyncFn V → Go (Tables × V) (Unit {0})
  sync_one st scope fn = do
    fetched ← attempt (on_tables (fetch_resource_for_sync st scope))
    synced st fn fetched

-- a thread of `RunSyncer`, for the ticks of its timer that come before its context is done: the error
-- of a sync is logged only
unfoldable pub run_syncer : {W : Type 0} → Go W (Unit {0}) → GoError → ℕ → Go W (Unit {0})
run_syncer sync ctx_err zero = fail ctx_err
run_syncer sync ctx_err (suc ticks) = do attempt sync; run_syncer sync ctx_err ticks

module _ {W : Type 0} (P : W → Type 0) (sync : Go W (Unit {0})) (ctx_err : GoError) where
  -- one sync after the other, whatever each returns, that many times
  abbrev pub Synced : ℕ → W → W → Type 0
  Synced zero w w' = w ≡ w'
  Synced (suc ticks) w w' =
      (r : Result (Unit {0})) × (u : W) × (sync w ≡ some (r, u)) × Synced ticks u w'

  abbrev pub Ended : ℕ → W → Type 0
  Ended ticks w =
      (w' : W) × (run_syncer sync ctx_err ticks w ≡ some (err ctx_err, w'))
      × P w'
      × Synced ticks w w'

  -- If each sync returns, with an error or without, and leaves `P`, then a thread of the syncer has
  -- run one sync for each of its ticks, each in the world that the one before has left, whatever that
  -- returned; it ends with the error of its context, and leaves `P`.
  pub run_syncer-ends : Total P Anything sync → (ticks : ℕ) (w : W) → P w → Ended ticks w
  unfolding run_syncer fail attempt ◌>>=◌
  run_syncer-ends total zero w p = (w, refl, p, refl)
  run_syncer-ends total (suc ticks) w p =
      let (r, w1, e, p1, _) = total.at w p in
      let (w2, ended, p2, synced_on) = run_syncer-ends total ticks w1 p1 in
      (w2, rw e ended, p2, (r, w1, e, synced_on))

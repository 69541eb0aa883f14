-- ===== src/Postgres/Resources/Synced.antt =====
-- `SyncOne` of internal/store/postgres/resource_store.go: what a call without an error has done.
use mathlib.Core.Path.{subst}
use entropy.Base.{
  ◌+◌, String, false, Option, some, List, [], ◌≡◌, ◌⊎◌, inl, inr, refl, sym, ap, arith, Bool-cases,
}
use entropy.Base.Dict.{Dict}
use entropy.Errors.{GoError, no_rows, is}
use entropy.Io.{Result, ok, err, pure, fail, attempt}
use entropy.Io.Calls.{answer, ◌>>=◌, ◌>>◌}
use entropy.Io.Invert.{bind-eq-ok, attempt-eq-ok}
use entropy.Resource.{Resource}
use entropy.Postgres.{Tables}
use entropy.Postgres.Resources.{Store, get_by_urn}
use entropy.Postgres.Resources.Writes.{update}
use entropy.Postgres.Resources.Due.{
  extend_rows, select_due, extend_wait_time, fetch_resource_for_sync, run_heartbeat,
}
use entropy.Postgres.Undone.{SameTables, failed_tx-SameTables}
use entropy.Postgres.Resources.Selected.{Answers, NothingDue, Due, fetch-Answers}
use entropy.Postgres.Resources.Leases.{fetched_rows}
use entropy.Postgres.Resources.Syncing.{
  SyncFn, beside, on_tables, handle_dequeued, synced, sync_one,
}

beside-eq-ok :
    {V A : Type 0} (v : V) (o : Result A × Tables) {r : Result A} {t' : Tables} {v' : V}
    → beside v o ≡ some (r, (t', v'))
    → (o ≡ (r, t')) × (v ≡ v')
beside-eq-ok v (r, t) e = ground arith

same_world :
    {V : Type 0} {a b : Tables × V}
    → ◌≡◌ {A = Option (Result (Unit {0}) × (Tables × V))} (some (ok tt, a)) (some (ok tt, b))
    → a ≡ b
same_world e = cc

module _ {V : Type 0} (st : Store) (scope : Dict (List String)) (fn : SyncFn V) where
  -- no row was due, the tables hold what they held, and nothing else has happened
  pub record NoneDue (t : Tables) (v : V) (t' : Tables) (v' : V) : Type 0 where
    pub nothing : NothingDue scope t
    pub tables : SameTables t t'
    pub rest : v' ≡ v

  -- A resource that was due was picked up and put off, read, handed to the function with its lease renewed at each
  -- tick of the heartbeat, and what the function returned was stored.
  pub record OneSynced (t : Tables) (v : V) (t' : Tables) (v' : V) : Type 0 where
    pub urn : String
    pub cur : Resource
    pub res : Resource
    pub taken : Tables
    pub read : Tables
    pub before : Tables
    pub after : Tables
    pub due : Due scope t urn
    pub fetched : fetch_resource_for_sync st scope t ≡ (ok urn, taken)
    pub put_off :
        taken.rows.resources ≡ extend_rows urn (t.time + st.extend_interval) t.rows.resources
    pub found : get_by_urn st urn taken ≡ (ok cur, read)
    pub renewed : before ≡ run_heartbeat st st.ticks cur.urn read
    pub ran : fn cur (before, v) ≡ some (ok res, (after, v'))
    pub stored : update st res false "sync" [] after ≡ (ok tt, t')

  fetch_failed :
      (t t1 : Tables) {e : GoError}
      → fetch_resource_for_sync st scope t ≡ (err e, t1)
      → SameTables t t1
  unfolding fetch_resource_for_sync
  fetch_failed t t1 h =
      failed_tx-SameTables (do urn ← select_due scope; extend_wait_time st urn; answer (ok urn)) t
        t1 h

  none_due :
      (t t1 t' : Tables) (v v' : V) (e : GoError)
      → fetch_resource_for_sync st scope t ≡ (err e, t1)
      → synced st fn (err e) (t1, v) ≡ some (ok tt, (t', v'))
      → NoneDue t v t' v'
  unfolding pure fail
  none_due t t1 t' v v' e fetched h = elim (Bool-cases (is e no_rows)) [
    | inl empty ↦
        let ended = same_world {a = (t1, v)} {b = (t', v')} (rw empty at h) in
        record {
          nothing =
              subst (Answers (NothingDue scope t) (Due scope t)) fetched (fetch-Answers scope t st)
                empty;
          tables = subst (SameTables t) (ap (λ x. x.0) ended) (fetch_failed t t1 fetched);
          rest = sym (ap (λ x. x.1) ended);
        }
    | inr other ↦ absurd (ground arith)
  ]

  one_synced :
      (t t1 t' : Tables) (v v' : V) (urn : String)
      → fetch_resource_for_sync st scope t ≡ (ok urn, t1)
      → synced st fn (ok urn) (t1, v) ≡ some (ok tt, (t', v'))
      → OneSynced t v t' v'
  unfolding handle_dequeued
  one_synced t t1 t' v v' urn fetched h =
      let (cur, (t2, v2), got, h1) = bind-eq-ok (on_tables (get_by_urn st urn)) _ (t1, v) h in
      let (found, same_v) = beside-eq-ok v (get_by_urn st urn t1) got in
      let (res, (t3, v3), ran, h2) = bind-eq-ok (handle_dequeued st cur fn) _ (t2, v2) h1 in
      let (stored, same_v') = beside-eq-ok v3 (update st res false "sync" [] t3) h2 in
      record {
        urn = urn;
        cur = cur;
        res = res;
        taken = t1;
        read = t2;
        before = run_heartbeat st st.ticks cur.urn t2;
        after = t3;
        due = subst (Answers (NothingDue scope t) (Due scope t)) fetched (fetch-Answers scope t st);
        fetched = fetched;
        put_off = fetched_rows st scope t t1 urn fetched;
        found = found;
        renewed = refl;
        ran =
            subst (λ x. fn cur (run_heartbeat st st.ticks cur.urn t2, x) ≡ some (ok res, (t3, v')))
              (sym same_v)
              (subst
                (λ y. fn cur (run_heartbeat st st.ticks cur.urn t2, v2) ≡ some (ok res, (t3, y)))
                same_v' ran);
        stored = stored;
      }

  synced-eq-ok :
      (r : Result String) (t t1 t' : Tables) (v v' : V)
      → fetch_resource_for_sync st scope t ≡ (r, t1)
      → synced st fn r (t1, v) ≡ some (ok tt, (t', v'))
      → NoneDue t v t' v' ⊎ OneSynced t v t' v'
  synced-eq-ok (err e) t t1 t' v v' fetched h = inl (none_due t t1 t' v v' e fetched h)
  synced-eq-ok (ok urn) t t1 t' v v' fetched h = inr (one_synced t t1 t' v v' urn fetched h)

  -- If `SyncOne` returns no error, then either no row of the scope was due, the tables hold what they
  -- held and nothing else has happened; or a resource that was due was picked up, its next sync was put off by the extension before it was read, the sync
  -- function was run on what was read, with the lease renewed meanwhile, and returned a resource, and
  -- this was stored, without a new revision.
  pub sync_one-eq-ok :
      (t t' : Tables) (v v' : V)
      → sync_one st scope fn (t, v) ≡ some (ok tt, (t', v'))
      → NoneDue t v t' v' ⊎ OneSynced t v t' v'
  unfolding sync_one
  sync_one-eq-ok t t' v v' e =
      let (r, (t1, v1), tried, e1) =
        bind-eq-ok (attempt (on_tables (fetch_resource_for_sync st scope))) _ (t, v) e in
      let (fetched, same) =
        beside-eq-ok v (fetch_resource_for_sync st scope t) (attempt-eq-ok _ (t, v) tried) in
      synced-eq-ok r t t1 t' v v' fetched
        (subst (λ x. synced st fn r (t1, x) ≡ some (ok tt, (t', v'))) (sym same) e1)

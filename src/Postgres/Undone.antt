-- ===== src/Postgres/Undone.antt =====
-- `withinTx` of internal/store/postgres/utils.go: a transaction that fails leaves no trace.
use mathlib.Core.Path.{subst}
use entropy.Base.{String, Bool, List, [], ◌∷◌, Option, none, some, ◌≡◌, refl, All}
use entropy.Errors.{GoError}
use entropy.Io.{Result, ok, err, Call}
use entropy.Io.Calls.{answer, next, ◌>>=◌}
use entropy.Resource.{Resource}
use entropy.Postgres.{
  Fault, Tables, MutationHook, run_or_fail, statement, committed, finished_tx, begun_tx, within_tx,
  run_all_hooks,
}
use entropy.Postgres.Resources.{Store}
use entropy.Postgres.Resources.Writes.{
  insert_resource, create, update_resource, update, delete_parts, delete,
}

-- all tables hold what they held
abbrev pub SameTables : Tables → Tables → Type 0
SameTables t t' = (t'.modules ≡ t.modules) × (t'.rows ≡ t.rows)

-- A call either has returned a value, where `P` holds, or has failed and left the tables as they were.
abbrev pub IsSettled : {A : Type 0} → Type 0 → Tables → Result A × Tables → Type 0
IsSettled P t (ok a, t') = P
IsSettled P t (err e, t') = SameTables t t'

-- no error comes without `P`
abbrev IfOk : {A : Type 0} → Type 0 → Result A × Tables → Type 0
IfOk P (ok a, t) = P
IfOk P (err e, t) = Unit

module _ {A : Type 0} (P : Type 0) (before : Tables) where
  committed-IsSettled :
      (a : A) (fs : List (Option Fault)) (t : Tables)
      → P
      → IsSettled P before (committed before a (run_or_fail fs (λ t. (ok tt, t)) t))
  committed-IsSettled a [] t p = p
  committed-IsSettled a (none ∷ fs) t p = p
  committed-IsSettled a (some e ∷ fs) t p = (refl, refl)

  finished-IsSettled :
      (out : Result A × Tables) → IfOk P out → IsSettled P before (finished_tx before out)
  unfolding statement answer
  finished-IsSettled (ok a, t) p = committed-IsSettled a t.faults t p
  finished-IsSettled (err e, t) p = (refl, refl)

  begun-IsSettled :
      (fn : Call Tables A) (fs : List (Option Fault))
      → ((t : Tables) → IfOk P (fn t))
      → IsSettled P before (begun_tx before fn (run_or_fail fs (λ t. (ok tt, t)) before))
  begun-IsSettled fn [] p = finished-IsSettled (fn before) (p before)
  begun-IsSettled fn (none ∷ fs) p =
      finished-IsSettled (fn (record before { faults = fs })) (p (record before { faults = fs }))
  begun-IsSettled fn (some e ∷ fs) p = (refl, refl)

  within_tx-IsSettled :
      (fn : Call Tables A)
      → ((t : Tables) → IfOk P (fn t))
      → IsSettled P before (within_tx fn before)
  unfolding within_tx statement answer
  within_tx-IsSettled fn p = begun-IsSettled fn before.faults p

any-IfOk : {A : Type 0} (out : Result A × Tables) → IfOk Unit out
any-IfOk (ok a, t) = tt
any-IfOk (err e, t) = tt

-- a transaction that returns an error has left the tables as they were
pub failed_tx-SameTables :
    {A : Type 0} (fn : Call Tables A) (before t' : Tables) {e : GoError}
    → within_tx fn before ≡ (err e, t')
    → SameTables before t'
failed_tx-SameTables fn before t' h =
    subst (IsSettled Unit before) h (within_tx-IsSettled Unit before fn (λ t. any-IfOk (fn t)))

module _ {A B : Type 0} (P : Type 0) where
  next-IfOk :
      (o : Result A × Tables) (f : A → Call Tables B)
      → ((a : A) (t : Tables) → IfOk P (f a t))
      → IfOk P (next o f)
  next-IfOk (ok a, t) f p = p a t
  next-IfOk (err e, t) f p = tt

  bind-IfOk :
      (m : Call Tables A) (f : A → Call Tables B)
      → ((a : A) (t : Tables) → IfOk P (f a t))
      → (t : Tables) → IfOk P ((m >>= f) t)
  unfolding ◌>>=◌
  bind-IfOk m f p t = next-IfOk (m t) f p

IfOk-map :
    {A : Type 0} {P Q : Type 0} (f : P → Q) (out : Result A × Tables) → IfOk P out → IfOk Q out
IfOk-map f (ok a, t) p = f p
IfOk-map f (err e, t) p = tt

-- every hook returns without an error
abbrev pub AllOk : List MutationHook → Type 0
AllOk hooks = All (λ hook. hook ≡ ok tt) hooks

run_all_hooks-AllOk :
    (hooks : List MutationHook) (t : Tables) → IfOk (AllOk hooks) (run_all_hooks hooks t)
unfolding run_all_hooks answer ◌>>=◌
run_all_hooks-AllOk [] t = tt
run_all_hooks-AllOk (err e ∷ hooks) t = tt
run_all_hooks-AllOk (ok _ ∷ hooks) t =
    IfOk-map (λ rest. (refl, rest)) (run_all_hooks hooks t) (run_all_hooks-AllOk hooks t)

module _ (hooks : List MutationHook) where
  insert_resource-AllOk :
      (st : Store) (r : Resource) (t : Tables)
      → IfOk (AllOk hooks) (insert_resource st.json r hooks t)
  unfolding insert_resource
  insert_resource-AllOk st r t =
      bind-IfOk (AllOk hooks) _ _
        (λ id. bind-IfOk (AllOk hooks) _ _ (λ _.
          bind-IfOk (AllOk hooks) _ _
            (λ _. bind-IfOk (AllOk hooks) _ _ (λ _. run_all_hooks-AllOk hooks))))
        t

  update_resource-AllOk :
      (st : Store) (r : Resource) (save_revision : Bool) (reason : String) (t : Tables)
      → IfOk (AllOk hooks) (update_resource st.json r save_revision reason hooks t)
  unfolding update_resource
  update_resource-AllOk st r save_revision reason t =
      bind-IfOk (AllOk hooks) _ _
        (λ id. bind-IfOk (AllOk hooks) _ _ (λ _. bind-IfOk (AllOk hooks) _ _ (λ _.
          bind-IfOk (AllOk hooks) _ _
            (λ _. bind-IfOk (AllOk hooks) _ _ (λ _. run_all_hooks-AllOk hooks)))))
        t

  delete_parts-AllOk : (urn : String) (t : Tables) → IfOk (AllOk hooks) (delete_parts urn hooks t)
  unfolding delete_parts
  delete_parts-AllOk urn t =
      bind-IfOk (AllOk hooks) _ _
        (λ id.
          bind-IfOk (AllOk hooks) _ _
            (λ _. bind-IfOk (AllOk hooks) _ _ (λ _. run_all_hooks-AllOk hooks)))
        t

-- `Create`, `Update` and `Delete` of the store of resources, with hooks that leave these tables alone,
-- each return no error only if none of the hooks has returned one; and if they return an error, be it
-- of a hook or of any statement, every table is as it was before.
pub write-IsSettled :
    (st : Store) (r : Resource) (urn : String) (save_revision : Bool) (reason : String)
    (hooks : List MutationHook) (t : Tables)
    → IsSettled (AllOk hooks) t (create st r hooks t)
      × IsSettled (AllOk hooks) t (update st r save_revision reason hooks t)
      × IsSettled (AllOk hooks) t (delete urn hooks t)
unfolding create update delete
write-IsSettled st r urn save_revision reason hooks t = (
  within_tx-IsSettled (AllOk hooks) t _ (insert_resource-AllOk hooks st r),
  within_tx-IsSettled (AllOk hooks) t _ (update_resource-AllOk hooks st r save_revision reason),
  within_tx-IsSettled (AllOk hooks) t _ (delete_parts-AllOk hooks urn),
)

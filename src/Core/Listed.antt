-- ===== src/Core/Listed.antt =====
-- `ListResources` of core/read.go.
use mathlib.Core.List.{Memᴰ}
use entropy.Base.{ℕ, Bool, some, List, ◌≡◌, ◌↔◌, ap, sym, ◌∙◌, length, arith}
use mathlib.Core.Path.{subst}
use entropy.Io.{Result, ok, err, call}
use entropy.Io.Invert.{bind-eq-ok, attempt-eq-ok, lift-eq-ok, pure-eq-ok}
use entropy.Resource.{Resource}
use entropy.Resource.Filter.{Filter, apply}
use entropy.Resource.Filter.Laws.{Matches, mem-apply}
use entropy.Core.{Service, internal, list_resources}

internal-eq-ok : {A : Type 0} (r : Result A) (a : A) → internal r ≡ ok a → r ≡ ok a
internal-eq-ok (ok b) a e = e
internal-eq-ok (err x) a e = ground arith

some-inj : {A : Type 0} {a b : A} → some a ≡ some b → a ≡ b
some-inj e = ground arith

listed :
    (filter : Filter) (stored rs : List Resource) (n : ℕ)
    → ◌≡◌ {A = ℕ × List Resource} (length (apply filter stored), apply filter stored) (n, rs)
    → (n ≡ length rs) × ((r : Resource) → Memᴰ r rs ↔ (Memᴰ r stored × Matches filter r))
listed filter stored rs n e =
    let same : apply filter stored ≡ rs = ap (λ p. p.1) e in
    (
      sym (ap (λ p. p.0) e) ∙ ap length same,
      λ r.
          subst (λ l. Memᴰ r l ↔ (Memᴰ r stored × Matches filter r)) same
            (mem-apply filter stored r),
    )

-- If `ListResources` returns resources, then they are exactly those that match the filter among the
-- ones that the store listed for it, and their count is returned with them.
pub list_resources-eq-ok :
    {W : Type 0} (svc : Service W) (filter : Filter) (with_spec_configs : Bool) (w w' : W) (n : ℕ)
    (rs : List Resource)
    → list_resources svc filter with_spec_configs w ≡ some (ok (n, rs), w')
    → (stored : List Resource) × (svc.store.list filter with_spec_configs w ≡ (ok stored, w'))
      × (n ≡ length rs)
      × ((r : Resource) → Memᴰ r rs ↔ (Memᴰ r stored × Matches filter r))
unfolding list_resources
list_resources-eq-ok svc filter with_spec_configs w w' n rs e =
    let (found, w1, asked, e1) = bind-eq-ok _ _ w e in
    let (stored, w2, lifted, e2) = bind-eq-ok _ _ w1 e1 in
    let (good, same1) = lift-eq-ok _ w1 lifted in
    let (pair, same2) = pure-eq-ok _ w2 e2 in
    let answered : some (svc.store.list filter with_spec_configs w) ≡ some (found, w1) =
      unfold call in (attempt-eq-ok _ w asked) in
    let (count, exact) = listed filter stored rs n pair in
    (
      stored,
      some-inj answered ∙ (λ i. (internal-eq-ok found stored good i, (same1 ∙ same2) i)),
      count,
      exact,
    )

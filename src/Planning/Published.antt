-- ===== src/Planning/Published.antt =====
-- At most one version of a run is published (wms/planning/versioning.py, `publish_version`).
use asf_wms.Prelude.{
  ℕ, ◌==◌, false, ◌&&◌, not, Option, some, List, [], ◌∷◌, map, All, ◌≡◌, ◌≢◌, sym, inl, inr,
  Bool-cases, arith, ok, raise_if, or_raise,
}
use mathlib.Core.Path.{subst}
use asf_wms.Prelude.Results.{>>=-eq-ok, ok_transport}
use asf_wms.Prelude.Table.{
  find, update, Fresh, Distinct, map-Distinct, All-update, find-key, find-update_self,
}
use asf_wms.Planning.{
  published, PlanningVersion, Planning, version_missing, not_draft, version_pk, is_draft,
  is_published, saved_version, supersede, publish_version,
}

-- Two versions are of different runs, or not both published.
abbrev pub Differ : PlanningVersion → PlanningVersion → Type 0
Differ v w = (is_published v.status && is_published w.status && v.run == w.run) ≡ false

-- No two versions of a run are published.
abbrev pub AtMostOne : List PlanningVersion → Type 0
AtMostOne [] = Unit
AtMostOne (v ∷ vs) = All (Differ v) vs × AtMostOne vs

-- A version of the run that is not the one with the key is not published.
abbrev IsClear : ℕ → ℕ → PlanningVersion → Type 0
IsClear run id w = (w.run == run && is_published w.status && not (w.id == id)) ≡ false

module _ (run id : ℕ) where
  supersede-IsClear : (v : PlanningVersion) → IsClear run id (supersede run id v)
  supersede-IsClear v = ground arith

  supersede-Differ :
      (v w : PlanningVersion) → Differ v w → Differ (supersede run id v) (supersede run id w)
  supersede-Differ v w h = ground arith

  map-supersede-IsClear :
      (vs : List PlanningVersion) → All (IsClear run id) (map (supersede run id) vs)
  map-supersede-IsClear [] = tt
  map-supersede-IsClear (v ∷ vs) = (supersede-IsClear v, map-supersede-IsClear vs)

  map-supersede-Differ :
      (v : PlanningVersion) (vs : List PlanningVersion)
      → All (Differ v) vs
      → All (Differ (supersede run id v)) (map (supersede run id) vs)
  map-supersede-Differ v [] h = tt
  map-supersede-Differ v (w ∷ ws) h = (supersede-Differ v w h.0, map-supersede-Differ v ws h.1)

  supersede-AtMostOne :
      (vs : List PlanningVersion) → AtMostOne vs → AtMostOne (map (supersede run id) vs)
  supersede-AtMostOne [] h = tt
  supersede-AtMostOne (v ∷ vs) h = (map-supersede-Differ v vs h.0, supersede-AtMostOne vs h.1)

  module _ (v : PlanningVersion) (same_run : v.run ≡ run) where
    clear-Differ : (w : PlanningVersion) → w.id ≢ id → IsClear run id w → Differ v w
    clear-Differ w n h = ground (arith, same_run, n, h)

    Differ-clear : (w : PlanningVersion) → w.id ≢ id → IsClear run id w → Differ w v
    Differ-clear w n h = ground (arith, same_run, n, h)

    IsClear-Differ :
        (ws : List PlanningVersion)
        → Fresh version_pk id ws
        → All (IsClear run id) ws
        → All (Differ v) ws
    IsClear-Differ [] f h = tt
    IsClear-Differ (w ∷ ws) f h = (clear-Differ w f.0 h.0, IsClear-Differ ws f.1 h.1)

    -- The version takes the place of the one with the key.
    placed-AtMostOne :
        (ws : List PlanningVersion)
        → Distinct version_pk ws
        → All (IsClear run id) ws
        → AtMostOne ws
        → AtMostOne (update version_pk id (λ _. v) ws)
    placed-AtMostOne [] d c h = tt
    placed-AtMostOne (w ∷ ws) d c h = elim (Bool-cases (w.id == id)) [
      | inl same ↦
          let e : w.id ≡ id = ground (arith, same) in
          rw same (IsClear-Differ ws (rw (← e) d.0) c.1, h.1)
      | inr other ↦
          let n : w.id ≢ id = ground (arith, other) in
          rw other (
            All-update version_pk (Differ w) id (λ _. v) ws (λ _ _. Differ-clear w n c.0) h.0,
            placed-AtMostOne ws d.1 c.1 h.1,
          )
    ]

saved_version-columns :
    (now : ℕ) (vs : List PlanningVersion) (v : PlanningVersion)
    → ((saved_version now vs v).id ≡ v.id)
      × ((saved_version now vs v).run ≡ v.run)
      × ((saved_version now vs v).status ≡ v.status)
unfolding saved_version
saved_version-columns now vs v = ground arith

raised :
    {o : Option PlanningVersion} {v : PlanningVersion}
    → or_raise o version_missing ≡ ok v
    → o ≡ some v
raised {o} {v} h = ground arith

find-supersede :
    (run id k : ℕ) (vs : List PlanningVersion) {r : PlanningVersion}
    → find version_pk k vs ≡ some r
    → find version_pk k (map (supersede run id) vs) ≡ some (supersede run id r)
find-supersede run id k [] h = cc
find-supersede run id k (v ∷ vs) {r} h = ground (arith, find-supersede run id k vs {r = r})

supersede-id : (run id : ℕ) (v : PlanningVersion) → (supersede run id v).id ≡ v.id
supersede-id run id v = ground arith

-- The writes of a publication, by the version before and after.
published-AtMostOne :
    (current u : PlanningVersion) (vs : List PlanningVersion)
    → u.id ≡ current.id
    → u.run ≡ current.run
    → Distinct version_pk vs
    → AtMostOne vs
    → find version_pk current.id vs ≡ some current
    → let written = update version_pk u.id (λ _. u) (map (supersede current.run current.id) vs) in
      AtMostOne written × (find version_pk current.id written ≡ some u)
published-AtMostOne current u vs same_id same_run d most stored =
    let ws = map (supersede current.run current.id) vs in
    subst
      (λ k.
        AtMostOne (update version_pk k (λ _. u) ws)
        × (find version_pk current.id (update version_pk k (λ _. u) ws) ≡ some u))
      (sym same_id)
      (
        placed-AtMostOne current.run current.id u same_run ws
            (map-Distinct version_pk (supersede current.run current.id) vs
              (supersede-id current.run current.id) d)
            (map-supersede-IsClear current.run current.id vs)
            (supersede-AtMostOne current.run current.id vs most),
        find-update_self version_pk current.id (λ _. u) ws same_id
            (find-supersede current.run current.id current.id vs stored),
      )

-- Where keys are distinct and no two versions of a run are published, publishing a version that succeeds
-- leaves no two versions of a run published, and the version that it returns, now published, in its
-- place.
pub publish_version-AtMostOne :
    (now : ℕ) (version : PlanningVersion) (p : Planning) {v : PlanningVersion} {p' : Planning}
    → Distinct version_pk p.versions
    → AtMostOne p.versions
    → publish_version now version p ≡ ok (v, p')
    → AtMostOne p'.versions
      × (v.status ≡ published)
      × (find version_pk version.id p'.versions ≡ some v)
unfolding publish_version
publish_version-AtMostOne now version p {v} {p'} d most h =
    let (current, found, h1) =
      >>=-eq-ok (or_raise (find version_pk version.id p.versions) version_missing) _ h in
    let (_, _, done) = >>=-eq-ok (raise_if (not (is_draft current.status)) not_draft) _ h1 in
    let stored : find version_pk version.id p.versions ≡ some current = raised found in
    let id = find-key version_pk version.id p.versions stored in
    let ws = map (supersede current.run current.id) p.versions in
    let u = saved_version now ws (record current { status = published }) in
    let (u_id, u_run, u_status) =
      saved_version-columns now ws (record current { status = published }) in
    let (most', stored') =
      published-AtMostOne current u p.versions u_id u_run d most
        (subst (λ k. find version_pk k p.versions ≡ some current) (sym id) stored) in
    ok_transport
      (λ (x : PlanningVersion × Planning).
        AtMostOne x.1.versions
        × (x.0.status ≡ published)
        × (find version_pk version.id x.1.versions ≡ some x.0))
      done
      (
        most',
        u_status,
        subst (λ k. find version_pk k (update version_pk u.id (λ _. u) ws) ≡ some u) id stored',
      )

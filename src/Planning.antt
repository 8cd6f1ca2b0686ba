-- ===== src/Planning.antt =====
-- Versions of a planning run (wms/planning/versioning.py; wms/models_domain/planning.py).
pub mod Published
use asf_wms.Prelude.{
  ℕ, suc, ◌+◌, ◌==◌, max, Bool, true, false, ◌&&◌, not, Option, none, some, List, [], ◌∷◌, ◌++◌,
  map, filter, or_default, if◌then◌else◌, Result, ok, ◌>>=◌, ◌>>◌, raise_if, or_raise,
}
use asf_wms.Prelude.Table.{find, update}
use asf_wms.Prelude.OrderBy.{order_by}
use asf_wms.Text.{Text}

pub data PlanningVersionStatus : Type 0 where
  draft published superseded cancelled : PlanningVersionStatus

pub data PlanningAssignmentSource : Type 0 where
  solver manual copied : PlanningAssignmentSource

-- The number is 0 where there is none.
pub record PlanningVersion : Type 0 where
  pub id : ℕ
  pub run : ℕ
  pub number : ℕ
  pub status : PlanningVersionStatus
  pub based_on : Option ℕ
  pub change_reason : Text
  pub created_by : Option ℕ
  pub published_at : Option ℕ

-- Snapshots are their keys, a weight is in hundredths of a kilogram.
pub record PlanningAssignment : Type 0 where
  pub id : ℕ
  pub version : ℕ
  pub shipment_snapshot : Option ℕ
  pub volunteer_snapshot : Option ℕ
  pub flight_snapshot : Option ℕ
  pub assigned_carton_count : ℕ
  pub assigned_weight_kg : Option ℕ
  pub status : Text
  pub source : PlanningAssignmentSource
  pub notes : Text
  pub sequence : ℕ

pub record Planning : Type 0 where
  pub versions : List PlanningVersion
  pub assignments : List PlanningAssignment
  -- the next primary keys
  pub next_version : ℕ
  pub next_assignment : ℕ

pub data PlanningError : Type 0 where
  version_missing not_draft : PlanningError

abbrev pub version_pk : PlanningVersion → ℕ
version_pk v = v.id

abbrev pub is_draft : PlanningVersionStatus → Bool
is_draft draft = true
is_draft _ = false

abbrev pub is_published : PlanningVersionStatus → Bool
is_published published = true
is_published _ = false

-- `aggregate(max_number=Max("number"))` of a run
unfoldable pub max_number : ℕ → List PlanningVersion → ℕ
max_number run [] = 0
max_number run (v ∷ vs) =
    let rest = max_number run vs in if v.run == run then max v.number rest else rest

abbrev pub numbered : List PlanningVersion → PlanningVersion → PlanningVersion
numbered versions v =
    if v.number == 0 then record v { number = suc (max_number v.run versions) } else v

abbrev pub dated : ℕ → PlanningVersion → PlanningVersion
dated now v =
    if is_published v.status
    then record v { published_at = some (or_default v.published_at now) }
    else v

-- `PlanningVersion.save`: the columns that it fills in.
unfoldable pub saved_version : ℕ → List PlanningVersion → PlanningVersion → PlanningVersion
saved_version now versions v = dated now (numbered versions v)

-- `original.assignments.all().order_by("sequence", "id")`
unfoldable pub assignments_of : ℕ → List PlanningAssignment → List PlanningAssignment
assignments_of version assignments =
    order_by (λ a. a.sequence ∷ a.id ∷ []) (filter (λ a. a.version == version) assignments)

-- `bulk_create` of the copies.
unfoldable pub copy_assignments : ℕ → ℕ → List PlanningAssignment → List PlanningAssignment
copy_assignments version id [] = []
copy_assignments version id (a ∷ as') =
    record a { id = id; version = version; source = copied } ∷ copy_assignments version (suc id) as'

abbrev pub count_all : List PlanningAssignment → ℕ
count_all [] = 0
count_all (_ ∷ as') = suc (count_all as')

unfoldable pub clone_version :
    ℕ → PlanningVersion → Option ℕ → Text → Planning → PlanningVersion × Planning
clone_version now original created_by change_reason p =
    let v = saved_version now p.versions (record {
      id = p.next_version;
      run = original.run;
      number = 0;
      status = draft;
      based_on = some original.id;
      change_reason = change_reason;
      created_by = created_by;
      published_at = none;
    }) in
    let copies =
      copy_assignments v.id p.next_assignment (assignments_of original.id p.assignments) in
    (
      v,
      record {
        versions = v ∷ p.versions;
        assignments = copies ++ p.assignments;
        next_version = suc p.next_version;
        next_assignment = p.next_assignment + count_all copies;
      },
    )

-- The update of the run's published versions but the one with the key.
abbrev pub supersede : ℕ → ℕ → PlanningVersion → PlanningVersion
supersede run id v =
    if v.run == run && is_published v.status && not (v.id == id)
    then record v { status = superseded }
    else v

unfoldable pub publish_version :
    ℕ → PlanningVersion → Planning → Result PlanningError (PlanningVersion × Planning)
publish_version now version p = do
  current ← or_raise (find version_pk version.id p.versions) version_missing
  raise_if (not (is_draft current.status)) not_draft
  let versions = map (supersede current.run current.id) p.versions
  let v = saved_version now versions (record current { status = published })
  ok (v, record p { versions = update version_pk v.id (λ _. v) versions })

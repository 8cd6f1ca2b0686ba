-- ===== src/Examples/Plannings.antt =====
-- The publication of a second version (wms/planning/versioning.py).
use asf_wms.Prelude.{ℕ, ◌≡◌, refl, none, some, Option, List, [], ◌∷◌, ok, arith}
use asf_wms.Prelude.Table.{find}
use asf_wms.Planning.{
  PlanningVersionStatus, draft, published, superseded, PlanningVersion, Planning, version_pk,
  saved_version, max_number, publish_version,
}
use asf_wms.Planning.Published.{AtMostOne, publish_version-AtMostOne}

abbrev version : ℕ → ℕ → ℕ → PlanningVersionStatus → Option ℕ → PlanningVersion
version id run number status published_at = record {
  id = id;
  run = run;
  number = number;
  status = status;
  based_on = none;
  change_reason = [];
  created_by = some 1;
  published_at = published_at;
}

abbrev planning : List PlanningVersion → Planning
planning versions = record {
  versions = versions;
  assignments = [];
  next_version = 4;
  next_assignment = 1;
}

abbrev before : List PlanningVersion
before =
    version 3 8 1 published (some 90)
    ∷ version 2 7 2 draft none
    ∷ version 1 7 1 published (some 80)
    ∷ []

abbrev after : List PlanningVersion
after =
    version 3 8 1 published (some 90)
    ∷ version 2 7 2 published (some 100)
    ∷ version 1 7 1 superseded (some 80)
    ∷ []

second_published :
    publish_version 100 (version 2 7 2 draft none) (planning before)
    ≡ ok (version 2 7 2 published (some 100), planning after)
unfolding publish_version saved_version max_number
second_published = refl

publish_version-AtMostOne_example :
    AtMostOne after
    × (published ≡ published)
    × (find version_pk 2 after ≡ some (version 2 7 2 published (some 100)))
publish_version-AtMostOne_example =
    publish_version-AtMostOne 100 (version 2 7 2 draft none) (planning before) (ground arith)
      (ground arith) second_published

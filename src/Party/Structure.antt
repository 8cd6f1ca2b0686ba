-- ===== src/Party/Structure.antt =====
-- The structure of a contact (wms/shipment_party_rules.py, `normalize_party_contact_to_org`).
use asf_wms.Prelude.{
  ℕ, ◌≡◌, ◌⊎◌, refl, sym, ap, ◌∙◌, inl, inr, true, false, Option, none, some, Bool-cases,
  Option-cases, arith,
}
use asf_wms.Prelude.Table.{find}
use asf_wms.Party.{Directory, Contact, contact_pk, is_person}
use asf_wms.Party.Resolve.{organization_of, normalize_party_contact_to_org}

-- A person that belongs to a structure has that one, and any other contact is its own.
abbrev pub IsStructureOf : Directory → Contact → Contact → Type 0
IsStructureOf d c o =
    ((is_person c.contact_type ≡ true)
      × ((k : ℕ) × (c.organization ≡ some k) × (find contact_pk k d.contacts ≡ some o)))
    ⊎ (((is_person c.contact_type ≡ false) ⊎ (c.organization ≡ none)) × (c ≡ o))

pub normalized-IsStructureOf :
    (d : Directory) (c : Contact) {o : Contact}
    → normalize_party_contact_to_org d (some c) ≡ some o
    → IsStructureOf d c o
unfolding normalize_party_contact_to_org
normalized-IsStructureOf d c {o} h = elim (Bool-cases (is_person c.contact_type)) [
  | inr structure ↦ inr (inl structure, ground (arith, h, structure))
  | inl person ↦
      let found : organization_of d c c.organization ≡ some o = ground (arith, h, person) in
      elim (Option-cases c.organization) [
        | inl alone ↦
            let same : some c ≡ some o = sym (ap (organization_of d c) alone) ∙ found in
            inr (inr alone, cc)
        | inr (k, member) ↦ inl (person, (k, member, sym (ap (organization_of d c) member) ∙ found))
      ]
]

-- The contact whose structure is found, and the structure.
pub given_contact :
    (d : Directory) (q : Option Contact) {o : Contact}
    → normalize_party_contact_to_org d q ≡ some o
    → (c : Contact) × (q ≡ some c) × IsStructureOf d c o
unfolding normalize_party_contact_to_org
given_contact d none h = absurd (cc)
given_contact d (some c) h = (c, refl, normalized-IsStructureOf d c h)

-- ===== src/Party/Shippers.antt =====
-- The shippers that the forms offer are accepted (wms/shipment_party_rules.py).
use asf_wms.Prelude.{
  ℕ, ◌==◌, ◌≡◌, ◌≢◌, refl, sym, ap, ◌∙◌, inl, inr, true, false, filter, filter_none, eq_option,
  Option, none, some, All-filter, All-both, Bool-cases, arith, ok, or_else,
}
use asf_wms.Prelude.Table.{find, find-key, find-own_key, find-filter}
use asf_wms.Party.{
  Directory, Contact, ContactType, Destination, ShipmentShipper, contact_pk, shipper_organization,
}
use asf_wms.Party.Eligible.{is_valid_shipper, eligible_shippers_for_stopover}
use asf_wms.Party.Resolve.{
  first_of, normalize_party_contact_to_org, shipper_of, shipment_shipper_record, is_among_shippers,
  resolve_shipper_for_operation,
}
use asf_wms.Party.Clean.{IsClean, IsMemberOrNone, normalize-organization}

kinds_differ : ContactType.person ≢ ContactType.organization
kinds_differ h = cc

-- A structure is the default contact of no shipper.
not_default :
    (d : Directory) (s : ShipmentShipper) (o : Contact)
    → find contact_pk o.id d.contacts ≡ some o
    → o.contact_type ≡ ContactType.organization
    → IsMemberOrNone d s.organization s.default_contact
    → eq_option s.default_contact (some o.id) ≡ false
not_default d s o found kind clean = not_equal s.default_contact clean
  where
    not_equal : (k : Option ℕ) → IsMemberOrNone d s.organization k → eq_option k (some o.id) ≡ false
    not_equal none h = refl
    not_equal (some k) (c, stored, is_person, _) = elim (Bool-cases (k == o.id)) [
      | inl same ↦
          let eq : k ≡ o.id = ground arith in
          let one : c ≡ o = cc (stored, found, eq) in
          absurd (kinds_differ (sym is_person ∙ ap (λ (x : Contact). x.contact_type) one ∙ kind))
      | inr other ↦ other
    ]

module _ (d : Directory) (clean : IsClean d) where
  -- The record of a structure is the valid shipper that it is.
  pub shipper_of-organization :
      (s : ShipmentShipper) (o : Contact)
      → find shipper_organization s.organization d.shippers ≡ some s
      → is_valid_shipper d s ≡ true
      → find contact_pk s.organization d.contacts ≡ some o
      → o.contact_type ≡ ContactType.organization
      → shipper_of d (some o) ≡ some s
  shipper_of-organization s o mine valid found kind =
      let key : o.id ≡ s.organization = find-key contact_pk s.organization d.contacts found in
      let own = find-own_key contact_pk s.organization d.contacts found in
      let test = λ (t : ShipmentShipper). eq_option t.default_contact (some o.id) in
      let out : ShipmentShipper → Type 0 = λ t. test t ≡ false in
      let member : ShipmentShipper → Type 0 =
        λ t. IsMemberOrNone d t.organization t.default_contact in
      let none_default = filter_none test (filter (is_valid_shipper d) d.shippers) (
        All-filter out (is_valid_shipper d) d.shippers (
          All-both member member out d.shippers (λ t h _. not_default d t o own kind h)
            clean.default_contacts clean.default_contacts)) in
      let by_organization =
        ap (λ k. find shipper_organization k (filter (is_valid_shipper d) d.shippers)) key
        ∙ find-filter shipper_organization (is_valid_shipper d) s.organization d.shippers mine
            valid in
      ap
        (λ xs.
          or_else (first_of xs)
            (find shipper_organization o.id (filter (is_valid_shipper d) d.shippers)))
        none_default
      ∙ by_organization

  -- A contact whose structure is an eligible shipper is accepted as this shipper.
  pub resolve_shipper-eligible :
      (x : Destination) (s : ShipmentShipper) (c o : Contact)
      → find shipper_organization s.organization d.shippers ≡ some s
      → is_valid_shipper d s ≡ true
      → is_among_shippers s (eligible_shippers_for_stopover d (some x)) ≡ true
      → find contact_pk s.organization d.contacts ≡ some o
      → o.contact_type ≡ ContactType.organization
      → normalize_party_contact_to_org d (some c) ≡ some o
      → resolve_shipper_for_operation d (some c) (some x) ≡ ok s
  unfolding resolve_shipper_for_operation shipment_shipper_record
  resolve_shipper-eligible x s c o mine valid among found kind norm =
      let same = normalize-organization d o kind in
      let record_of = shipper_of-organization s o mine valid found kind in
      rw (norm, same, record_of, among) refl

-- ===== src/Party/Bound.antt =====
-- Every contact that the form offers as recipient is accepted (wms/shipment_party_rules.py).
use asf_wms.Prelude.{
  ℕ, ◌≡◌, refl, sym, ap, ◌∙◌, inl, inr, true, ◌&&◌, any_self, filter, filter-test, Option, some,
  All, All-filter, All-both, Bool-cases, arith, ok,
}
use mathlib.Core.Path.{subst}
use asf_wms.Prelude.Table.{find, find-key, All-found}
use asf_wms.Prelude.OrderBy.{order_by}
use asf_wms.Party.{
  Directory, Contact, ContactType, Destination, ShipmentShipper, ShipmentRecipientOrganization,
  contact_pk, recipient_pk, recipient_organization, is_validated,
}
use asf_wms.Party.Eligible.{
  is_valid_recipient, is_valid_at, receives_from, links_to, is_stored_valid,
  eligible_shippers_for_stopover, eligible_recipient_organizations_for_shipper,
}
use asf_wms.Party.Resolve.{
  Binding, binding, first_of, link_key, normalize_party_contact_to_org, shipper_of,
  shipment_shipper_record, shipment_recipient_organization_record, is_among_recipients,
  resolve_shipper_for_operation, resolve_recipient_binding_for_operation,
}
use asf_wms.Party.Clean.{
  IsClean, IsOrganization, IsMember, normalize-organization, normalize-member,
}
use asf_wms.Party.Recipients.{recipient_of-organization, shipper_of-IsFound, receives_from-may_send}

module _ (d : Directory) (clean : IsClean d) (shipper_contact : Option Contact) (x : Destination)
    (active : x.is_active ≡ true) {o : Contact}
    (norm : normalize_party_contact_to_org d shipper_contact ≡ some o)
    (kind : o.contact_type ≡ ContactType.organization) {s : ShipmentShipper}
    (shipper : shipper_of d (some o) ≡ some s) where
  -- What is known of an eligible recipient.
  abbrev pub IsEligible : ShipmentRecipientOrganization → Type 0
  IsEligible r =
      (find recipient_organization r.organization d.recipients ≡ some r)
      × (find recipient_pk r.id d.recipients ≡ some r)
      × IsOrganization d r.organization
      × (is_valid_at d x.id r ≡ true)
      × (receives_from d s r ≡ true)

  abbrev KnownRecipient : ShipmentRecipientOrganization → Type 0
  KnownRecipient r =
      (find recipient_organization (recipient_organization r) d.recipients ≡ some r)
      × (find recipient_pk (recipient_pk r) d.recipients ≡ some r)
      × IsOrganization d (recipient_organization r)

  -- The contacts with the key are accepted as recipients.
  abbrev pub BindsKey : ℕ → Type 0
  BindsKey k =
      (c : Contact)
      → find contact_pk k d.contacts ≡ some c
      → (b : Binding) × (resolve_recipient_binding_for_operation d shipper_contact (some c) (some x)
          ≡ ok b)

  shipper_accepted :
      (r : ShipmentRecipientOrganization)
      → IsEligible r
      → resolve_shipper_for_operation d shipper_contact (some x) ≡ ok s
  unfolding resolve_shipper_for_operation shipment_shipper_record eligible_shippers_for_stopover
  shipper_accepted r (_, stored, _, here, from) =
      let (valid, among) = shipper_of-IsFound d clean x.id o shipper in
      let sends = receives_from-may_send d clean x.id s r valid stored here from in
      let same = normalize-organization d o kind in
      let listed = among sends in rw (norm, same, shipper, active, listed) refl

  binds :
      (r : ShipmentRecipientOrganization) (c oc : Contact)
      → IsEligible r
      → is_among_recipients r (eligible_recipient_organizations_for_shipper d s (some x)) ≡ true
      → normalize_party_contact_to_org d (some c) ≡ some oc
      → find contact_pk r.organization d.contacts ≡ some oc
      → oc.contact_type ≡ ContactType.organization
      → (b : Binding) × (resolve_recipient_binding_for_operation d shipper_contact (some c) (some x)
          ≡ ok b)
  unfolding resolve_recipient_binding_for_operation shipment_recipient_organization_record
      is_valid_recipient
  binds r c oc e among of_contact found is_organization =
      let accepted = shipper_accepted r e in
      let key = find-key contact_pk r.organization d.contacts found in
      let same = normalize-organization d oc is_organization in
      let recipient = recipient_of-organization d clean r x.id oc e.0 e.3 key in
      let validated : is_validated r.validation_status ≡ true = ground (arith, e.3) in
      (
        binding (first_of (order_by link_key (filter (links_to s.id r.id) d.links))) r,
        rw (of_contact, accepted, same, recipient, validated, among) refl,
      )

  -- The structure of an eligible recipient, and its persons.
  pub binds_organization :
      (r : ShipmentRecipientOrganization)
      → IsEligible r
      → is_among_recipients r (eligible_recipient_organizations_for_shipper d s (some x)) ≡ true
      → BindsKey r.organization
  binds_organization r e among c here =
      let (oc, found, is_organization) = e.2 in
      let same : c ≡ oc = cc (here, found) in
      binds r c oc e among
        (ap (λ y. normalize_party_contact_to_org d (some y)) same
          ∙ normalize-organization d oc is_organization)
        found is_organization

  pub binds_member :
      (r : ShipmentRecipientOrganization) (k : ℕ)
      → IsEligible r
      → is_among_recipients r (eligible_recipient_organizations_for_shipper d s (some x)) ≡ true
      → IsMember d r.organization k
      → BindsKey k
  binds_member r k e among (p, stored, is_person, belongs) c here =
      let (oc, found, is_organization) = e.2 in
      let same : c ≡ p = cc (here, stored) in
      binds r c oc e among
        (ap (λ y. normalize_party_contact_to_org d (some y)) same
          ∙ normalize-member d p r.organization is_person belongs
          ∙ found)
        found is_organization

  pub known_recipients : All (λ r. KnownRecipient r) d.recipients
  known_recipients =
      let by_organization : ShipmentRecipientOrganization → Type 0 =
        λ r. find recipient_organization (recipient_organization r) d.recipients ≡ some r in
      let by_key : ShipmentRecipientOrganization → Type 0 =
        λ r. find recipient_pk (recipient_pk r) d.recipients ≡ some r in
      let is_organization : ShipmentRecipientOrganization → Type 0 =
        λ r. IsOrganization d (recipient_organization r) in
      let both : ShipmentRecipientOrganization → Type 0 = λ r. by_key r × is_organization r in
      All-both by_organization both KnownRecipient d.recipients (λ r h k. (h, k.0, k.1))
        (All-found recipient_organization d.recipients clean.one_recipient)
        (All-both by_key is_organization both d.recipients (λ r h k. (h, k))
          (All-found recipient_pk d.recipients clean.recipient_keys) clean.recipient_organizations)

  -- What is known of the recipients of the shipper at the destination.
  pub IsEligible-recipients :
      All
        (λ r.
          IsEligible r
          × (is_among_recipients r (eligible_recipient_organizations_for_shipper d s (some x))
              ≡ true))
        (eligible_recipient_organizations_for_shipper d s (some x))
  unfolding eligible_recipient_organizations_for_shipper
  IsEligible-recipients =
      let rs = eligible_recipient_organizations_for_shipper d s (some x) in
      let among : ShipmentRecipientOrganization → Type 0 = λ r. is_among_recipients r rs ≡ true in
      let goal : ShipmentRecipientOrganization → Type 0 = λ r. IsEligible r × among r in
      elim (Bool-cases (x.is_active && is_stored_valid d s)) [
        | inl open_ ↦
            let at = filter (is_valid_at d x.id) d.recipients in
            let e : rs ≡ filter (receives_from d s) at = rw open_ refl in
            let here : ShipmentRecipientOrganization → Type 0 = λ r. is_valid_at d x.id r ≡ true in
            let from : ShipmentRecipientOrganization → Type 0 = λ r. receives_from d s r ≡ true in
            let known : ShipmentRecipientOrganization → Type 0 = λ r. KnownRecipient r × here r in
            subst (All goal) (sym e) (
              All-both IsEligible among goal (filter (receives_from d s) at) (λ r h k. (h, k))
                (All-both known from IsEligible (filter (receives_from d s) at)
                  (λ r h k. (h.0.0, h.0.1, h.0.2, h.1, k))
                  (All-filter known (receives_from d s) at (
                    All-both KnownRecipient here known at (λ r h k. (h, k))
                      (All-filter KnownRecipient (is_valid_at d x.id) d.recipients known_recipients)
                      (filter-test (is_valid_at d x.id) d.recipients)))
                  (filter-test (receives_from d s) at))
                (subst (All among) e (any_self recipient_pk rs)))
        | inr closed ↦ rw closed tt
      ]

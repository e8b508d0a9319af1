-- ===== src/Invoice/Groups.antt =====
-- invoice/xml.go: the tax subtotals of an invoice, collected in a map that is keyed by category and
-- percentage. The map and the list of its keys are one list, in the order of the keys.
use zatca_integration.Common.{
  ◌≡◌, refl, sym, ap, ◌∙◌, Bool, false, Option, none, some, List, [], ◌∷◌, ◌++◌, map, find_row,
  changed, if◌then◌else◌, Bool-cases, inl, inr, arith,
}
use zatca_integration.Text.{Text, text_eq, text_eq_iff}
use zatca_integration.Invoice.{Float, LineItem, round_to_2, net_amount, tax_amount}

-- taxGroup, with its key
pub record TaxGroup {ℓ} (W : Type ℓ) : Type ℓ where
  pub key : Text
  pub category : Text
  pub percent : W
  pub taxable : W
  pub tax : W

abbrev pub has_key {ℓ} : {W : Type ℓ} → Text → TaxGroup W → Bool
has_key key g = text_eq key g.key

no_other :
    (key own other : Text) → key ≡ other → text_eq own other ≡ false → text_eq key own ≡ false
no_other key own other e h = elim (Bool-cases (text_eq key own)) [
  | inr apart ↦ apart
  | inl same ↦
      let q : own ≡ other = sym ((text_eq_iff key own).0 same) ∙ e in
      absurd (ground (arith, h, (text_eq_iff own other).1 q))
]

module _ {ℓ} {W : Type ℓ} (f : Float W) where
  -- the key of a line
  unfoldable pub group_key : LineItem W → Text
  group_key l = l.tax_category ++ b'-' ∷ f.text_2 l.tax_percent

  -- the two sums of a round
  unfoldable pub add_amounts : LineItem W → TaxGroup W → TaxGroup W
  add_amounts l g = record g {
    taxable = f.add g.taxable (net_amount f l);
    tax = f.add g.tax (tax_amount f l);
  }

  abbrev pub new_group : LineItem W → TaxGroup W
  new_group l = record {
    key = group_key l;
    category = l.tax_category;
    percent = l.tax_percent;
    taxable = f.nought;
    tax = f.nought;
  }

  -- one round of the first loop of taxGroups
  unfoldable pub add_line : LineItem W → List (TaxGroup W) → List (TaxGroup W)
  add_line l [] = add_amounts l (new_group l) ∷ []
  add_line l (g ∷ groups) =
      let rest = add_line l groups in
      if has_key (group_key l) g then add_amounts l g ∷ groups else g ∷ rest

  -- the first loop
  unfoldable pub collect : List (LineItem W) → List (TaxGroup W) → List (TaxGroup W)
  collect [] groups = groups
  collect (l ∷ lines) groups = collect lines (add_line l groups)

  abbrev pub rounded_group : TaxGroup W → TaxGroup W
  rounded_group g = record g { taxable = round_to_2 f g.taxable; tax = round_to_2 f g.tax }

  -- taxGroups
  unfoldable pub tax_groups : List (LineItem W) → List (TaxGroup W)
  tax_groups lines = map rounded_group (collect lines [])

  -- what one line adds to the group of a key, where the group may be missing
  abbrev pub joined : LineItem W → Option (TaxGroup W) → Option (TaxGroup W)
  joined l none = some (add_amounts l (new_group l))
  joined l (some g) = some (add_amounts l g)

  -- The group of one key by itself: the lines of that key, added in their order.
  unfoldable pub group_of : Text → List (LineItem W) → Option (TaxGroup W) → Option (TaxGroup W)
  group_of key [] o = o
  group_of key (l ∷ lines) o =
      group_of key lines (if text_eq key (group_key l) then joined l o else o)

  add_amounts-key : (l : LineItem W) (g : TaxGroup W) → (add_amounts l g).key ≡ g.key
  unfolding add_amounts
  add_amounts-key l g = refl

  find-add_line :
      (key : Text) (l : LineItem W) (groups : List (TaxGroup W))
      → find_row (has_key key) (add_line l groups) ≡ (
          if text_eq key (group_key l)
          then joined l (find_row (has_key key) groups)
          else find_row (has_key key) groups)
  unfolding add_line add_amounts
  find-add_line key l [] = refl
  find-add_line key l (g ∷ groups) = elim (Bool-cases (has_key (group_key l) g)) [
    | inl own ↦
        let e : group_key l ≡ g.key = (text_eq_iff (group_key l) g.key).0 own in
        rw (own, e)
          (elim (Bool-cases (text_eq key g.key)) [
            | inl same ↦ rw same refl
            | inr other ↦ rw other refl
          ])
    | inr other ↦ rw other (elim (Bool-cases (text_eq key g.key)) [
      | inr further ↦ rw further (find-add_line key l groups)
      | inl here ↦
          let e : key ≡ g.key = (text_eq_iff key g.key).0 here in
          rw (here, no_other key (group_key l) g.key e other) refl
    ])
  ]

  find-collect :
      (key : Text) (lines : List (LineItem W)) (groups : List (TaxGroup W))
      → find_row (has_key key) (collect lines groups)
        ≡ group_of key lines (find_row (has_key key) groups)
  unfolding collect group_of
  find-collect key [] groups = refl
  find-collect key (l ∷ lines) groups =
      find-collect key lines (add_line l groups)
      ∙ ap (group_of key lines) (find-add_line key l groups)

  find-rounded :
      (key : Text) (groups : List (TaxGroup W))
      → find_row (has_key key) (map rounded_group groups)
        ≡ changed rounded_group (find_row (has_key key) groups)
  find-rounded key [] = refl
  find-rounded key (g ∷ groups) = elim (Bool-cases (text_eq key g.key)) [
    | inl same ↦ rw same refl
    | inr other ↦ rw other (find-rounded key groups)
  ]

  -- The subtotal that the shared map holds for a key is the one that the lines of that key give on
  -- their own: added in their order, started by the first of them, and rounded at the end. A key of no
  -- line has no subtotal.
  pub tax_groups-group_of :
      (key : Text) (lines : List (LineItem W))
      → find_row (has_key key) (tax_groups lines) ≡ changed rounded_group (group_of key lines none)
  unfolding tax_groups
  tax_groups-group_of key lines =
      find-rounded key (collect lines []) ∙ ap (changed rounded_group) (find-collect key lines [])

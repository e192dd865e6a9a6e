-- ===== src/Solver/Feasible/Agrees.antt =====
-- The tests of `_partial_is_possible` in backend/app/services/build_solver.py against the constraints
-- of backend/app/services/compatibility.py.
use ai_repo.Prelude.{
  String, ◌≡◌, refl, inl, inr, Option, none, some, Bool, true, false, arith, elem_iff, Bool-cases,
  Option-cases, IfSome,
}
use ai_repo.Runtime.{Builtins, IsOrdered, zero_float, or_zero, truthy}
use ai_repo.Domain.{
  ComponentKind, ComponentNode, Group, lookup, property, property_or_empty, number, float_of, str,
}
use ai_repo.Compatibility.Verdict.{count_or_zero}
use ai_repo.Compatibility.Bus.{header_requirements, header_supply, requested_gbps}
use ai_repo.Compatibility.Spec.{
  IfBoth, FitsWithin, FormFactorFits, GpuFits, CoolerFits, LanesSuffice, UsbSuffices,
}
use ai_repo.Solver.Parts.{BuildPreferences, Parts, part}
use ai_repo.Solver.Feasible.{
  headers_short, usb_possible, pcie_possible, if_both, size_possible, form_factor_possible,
  gpu_possible, cooler_height_possible, partial_is_possible,
}

module _ {F : Type 0} ⦃py : Builtins F⦄ where
  -- No property of the node reads as NaN.
  abbrev pub HasNumbers : ComponentNode F → Type 0
  HasNumbers n =
      (group : Group) (key : String) → IfSome (number n group key none) λ x. py.le x x ≡ true

  form_factor-Fits :
      (board case : ComponentNode F)
      → form_factor_possible board case ≡ true
      → FormFactorFits board case
  unfolding property property_or_empty str
  form_factor-Fits board case e supported known =
      elim (Option-cases (lookup "form_factor" board.specs)) [
        | inl n ↦ absurd (known (rw n refl))
        | inr (v, n) ↦ rw n ((elem_iff _ _).0 (rw n at e))
      ]

  pcie-Fits :
      (cpu board : ComponentNode F) (gpu storage : Option (ComponentNode F))
      → pcie_possible cpu board gpu storage ≡ true
      → LanesSuffice cpu board gpu storage
  unfolding pcie_possible
  pcie-Fits cpu board gpu storage e =
      elim (Option-cases (number cpu Group.bandwidth "pcie_lanes" none)) [
        | inl n ↦ rw n tt
        | inr (x, n) ↦ rw n (rw (n, pcie_possible) at e)
      ]

  module _ (ordered : IsOrdered F) (zero_number : py.le zero_float zero_float ≡ true) where
    open ordered use {lt-eq-false_iff}

    size-Fits :
        (size room : Option F)
        → IfSome size (λ x. py.le x x ≡ true)
        → IfSome room (λ x. py.le x x ≡ true)
        → size_possible size room ≡ true
        → FitsWithin size room
    size-Fits none room n m e = tt
    size-Fits (some s) none n m e = tt
    size-Fits (some s) (some r) n m e =
        let not_less : py.lt r s ≡ false = ground arith in (lt-eq-false_iff r s m n).0 not_less

    or_zero-IsNumber :
        (o : Option F) → IfSome o (λ x. py.le x x ≡ true) → py.le (or_zero o) (or_zero o) ≡ true
    or_zero-IsNumber none h = elim (Bool-cases (truthy ⦃py = py⦄ zero_float)) [
      | inl e ↦ rw e zero_number
      | inr e ↦ rw e zero_number
    ]
    or_zero-IsNumber (some x) h = elim (Bool-cases (truthy x)) [
      | inl e ↦ rw e h
      | inr e ↦ rw e zero_number
    ]

    number_default-IsNumber :
        (n : ComponentNode F) (g : Group) (key : String)
        → IfSome (number n g key none) (λ x. py.le x x ≡ true)
        → IfSome (number n g key (some zero_float)) (λ x. py.le x x ≡ true)
    unfolding number
    number_default-IsNumber n g key h = elim (Option-cases (float_of (property n g key))) [
      | inl e ↦ rw (number, e) zero_number
      | inr (x, e) ↦ rw (number, e) (rw (number, e) at h)
    ]

    count-IsNumber :
        (n : ComponentNode F)
        → HasNumbers n
        → (g : Group) (key : String) → py.le (count_or_zero n g key) (count_or_zero n g key) ≡ true
    count-IsNumber n h g key =
        or_zero-IsNumber (number n g key (some zero_float))
          (number_default-IsNumber n g key (h g key))

    covers :
        (available required : F)
        → py.le available available ≡ true
        → py.le required required ≡ true
        → py.lt available required ≡ false
        → py.le required available ≡ true
    covers available required n m e = (lt-eq-false_iff available required n m).0 e

    usb-Fits :
        (board case : ComponentNode F)
        → HasNumbers board
        → HasNumbers case
        → usb_possible board case ≡ true
        → UsbSuffices board case
    unfolding usb_possible header_requirements header_supply
    usb-Fits board case h k e =
        elim (Bool-cases (headers_short (header_requirements case) (header_supply board))) [
          | inl short ↦ cc (rw short at e)
          | inr enough ↦
              let known : elim (number board Group.bandwidth "usb_controller_gbps" none)
                    as (λ o. Bool) [
                      | none ↦ true
                      | some controller ↦
                          py.le (requested_gbps (header_requirements case)) controller
                    ]
                  ≡ true =
                rw enough at e in
              record {
                usb_20 =
                    covers _ _ (count-IsNumber board h Group.bandwidth "usb_20_headers")
                      (count-IsNumber case k Group.bandwidth "front_usb_20_ports") (ground arith);
                usb_32_gen1 =
                    covers _ _ (count-IsNumber board h Group.bandwidth "usb_32_gen1_headers")
                      (count-IsNumber case k Group.bandwidth "front_usb_32_gen1_ports")
                      (ground arith);
                usb_32_gen2x2 =
                    covers _ _ (count-IsNumber board h Group.bandwidth "usb_32_gen2x2_headers")
                      (count-IsNumber case k Group.bandwidth "front_usb_32_gen2x2_ports")
                      (ground arith);
                controller =
                    elim (Option-cases (number board Group.bandwidth "usb_controller_gbps" none)) [
                      | inl n ↦ rw n tt
                      | inr (x, n) ↦ rw n (rw n at known)
                    ];
              }
        ]

    if_both-IfBoth :
        (a b : Option (ComponentNode F)) (test : ComponentNode F → ComponentNode F → Bool)
        (P : ComponentNode F → ComponentNode F → Type 0)
        → ((x y : ComponentNode F) → HasNumbers x → HasNumbers y → test x y ≡ true → P x y)
        → IfSome a HasNumbers
        → IfSome b HasNumbers
        → if_both a b test ≡ true
        → IfBoth a b P
    if_both-IfBoth none b test P step h k e = tt
    if_both-IfBoth (some x) none test P step h k e = tt
    if_both-IfBoth (some x) (some y) test P step h k e = step x y h k e

-- The constraints of the engine that a partial build must meet by the parts it has.
pub record MeetsConstraints {F : Type 0} ⦃py : Builtins F⦄ (partial : Parts F) : Type 0 where
  pub form_factor :
      IfBoth
        (part ComponentKind.motherboard partial)
        (part ComponentKind.case partial)
        FormFactorFits
  pub gpu_length : IfBoth (part ComponentKind.gpu partial) (part ComponentKind.case partial) GpuFits
  pub cooler_height :
      IfBoth (part ComponentKind.cooler partial) (part ComponentKind.case partial) CoolerFits
  pub usb :
      IfBoth (part ComponentKind.motherboard partial) (part ComponentKind.case partial) UsbSuffices
  pub lanes :
      IfBoth (part ComponentKind.cpu partial) (part ComponentKind.motherboard partial) λ c b.
        LanesSuffice c b (part ComponentKind.gpu partial) (part ComponentKind.storage partial)

module _ {F : Type 0} ⦃py : Builtins F⦄ (ordered : IsOrdered F)
    (zero_number : py.le zero_float zero_float ≡ true) where
  -- With ordered numbers, where 0.0 is a number and no property of the chosen parts reads as NaN: a
  -- partial build that the solver does not prune meets the engine's constraints on form factor, GPU length, cooler height,
  -- USB and PCIe lanes, as far as its parts are chosen.
  pub possible-MeetsConstraints :
      (partial : Parts F) (preferences : BuildPreferences F)
      → ((kind : ComponentKind) → IfSome (part kind partial) HasNumbers)
      → partial_is_possible partial preferences ≡ true
      → MeetsConstraints partial
  unfolding partial_is_possible
  possible-MeetsConstraints partial preferences h e =
      let board = part ComponentKind.motherboard partial in
      let case = part ComponentKind.case partial in
      let gpu = part ComponentKind.gpu partial in
      let storage = part ComponentKind.storage partial in
      record {
        form_factor =
            if_both-IfBoth ordered zero_number board case form_factor_possible FormFactorFits
              (λ b c _ _ k. form_factor-Fits b c k) (h ComponentKind.motherboard)
              (h ComponentKind.case) (ground arith);
        gpu_length =
            if_both-IfBoth ordered zero_number gpu case gpu_possible GpuFits
              (λ g c n m k.
                size-Fits ordered zero_number _ _ (n Group.dimensions "length_mm")
                  (m Group.dimensions "gpu_clearance_mm") k)
              (h ComponentKind.gpu) (h ComponentKind.case) (ground arith);
        cooler_height =
            if_both-IfBoth ordered zero_number (part ComponentKind.cooler partial) case
              cooler_height_possible CoolerFits
              (λ g c n m k.
                size-Fits ordered zero_number _ _ (n Group.dimensions "height_mm")
                  (m Group.dimensions "cooler_clearance_mm") k)
              (h ComponentKind.cooler) (h ComponentKind.case) (ground arith);
        usb =
            if_both-IfBoth ordered zero_number board case usb_possible UsbSuffices
              (λ b c n m k. usb-Fits ordered zero_number b c n m k) (h ComponentKind.motherboard)
              (h ComponentKind.case) (ground arith);
        lanes =
            if_both-IfBoth ordered zero_number (part ComponentKind.cpu partial) board
              (λ c b. pcie_possible c b gpu storage) (λ c b. LanesSuffice c b gpu storage)
              (λ c b _ _ k. pcie-Fits c b gpu storage k) (h ComponentKind.cpu)
              (h ComponentKind.motherboard) (ground arith);
      }

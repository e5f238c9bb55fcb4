-- ===== src/Controller/Params/Names.antt =====
-- The order of the claimed interfaces is the one by which the hardware module looks them up, and
-- what the controller passes on makes a hardware module with full groups of interfaces.
use icon_hwm_controller.Prelude.{
  ℕ, zero, suc, ◌+◌, ◌*◌, ◌<◌, ◌≡◌, refl, ap, ◌∙◌, ◌≢◌, String, List, [], ◌∷◌, ◌++◌, map, some,
  arith, length, get_elem?, length-append, lt_of_get_elem?, get_elem?-append_left,
  get_elem?-append_right, length-map, get_elem?-map, concat, true, false, eq_iff, ltb, str_eq, ◌⊎◌,
}
use icon_hwm_controller.Status.{value}
use icon_hwm_controller.Hwm.Params.{Hwm, create}
use icon_hwm_controller.Hwm.Interfaces.{Loans}
use icon_hwm_controller.Hwm.Strides.{size_limit}
use icon_hwm_controller.Hwm.Apply.Bounds.{IsArmed}
use icon_hwm_controller.Controller.Params.{
  Settings, success, interface_names, command_interface_configuration, hwm_params, contains,
  on_init,
}

abbrev pub full_name : String → String → String
full_name dof type = concat (dof ∷ "/" ∷ type ∷ [])

-- The interface of type `j` of axis `i` stands at the index `j + i * stride`, where the stride is the
-- number of types: where the hardware module looks for joint `i`.
pub interface_names_at :
    (dofs types : List String) (i j : ℕ) (dof type : String)
    → get_elem? dofs i ≡ some dof
    → get_elem? types j ≡ some type
    → get_elem? (interface_names dofs types) (j + i * length types) ≡ some (full_name dof type)
unfolding interface_names get_elem?
interface_names_at [] types i j dof type e f = absurd (ground arith)
interface_names_at (d ∷ dofs) types zero j dof type e f =
    let here : d ≡ dof = ground arith in
    let inside = lt_of_get_elem? types j f in
    ap (get_elem? (interface_names (d ∷ dofs) types)) (omega arith)
    ∙ get_elem?-append_left (map (full_name d) types) (interface_names dofs types) j
        (omega (arith, length-map (full_name d) types))
    ∙ get_elem?-map (full_name d) types j f
    ∙ ap (λ (n : String). some (full_name n type)) here
interface_names_at (d ∷ dofs) types (suc i) j dof type e f =
    let size = length-map (full_name d) types in
    let at : j + suc i * length types ≡ length (map (full_name d) types) + (j + i * length types) =
      grind arith in
    ap (get_elem? (interface_names (d ∷ dofs) types)) at
    ∙ get_elem?-append_right (map (full_name d) types) (interface_names dofs types)
        (j + i * length types)
    ∙ interface_names_at dofs types i j dof type e f

pub length-interface_names :
    (dofs types : List String) → length (interface_names dofs types) ≡ length dofs * length types
unfolding interface_names
length-interface_names [] types = omega arith
length-interface_names (d ∷ dofs) types =
    let size = length-map (full_name d) types in
    let rest = length-interface_names dofs types in
    length-append (map (full_name d) types) (interface_names dofs types) ∙ grind arith

pub create_params :
    (p : icon_hwm_controller.Hwm.Params.Params) (h : Hwm) → create p ≡ value h → h.params ≡ p
unfolding create
create_params p h e = ground arith

pub length_pos : (xs : List String) → xs ≢ [] → 0 < length xs
length_pos [] n = absurd (n refl)
length_pos (x ∷ xs) n = omega arith

-- A hardware module created from the settings, with as many loaned command interfaces as the controller
-- claims, which a `size_t` can count, and at least one type of them, is connected and has full groups
-- of them.
pub configured-IsArmed :
    (loans : Loans) (p : Settings) (h : Hwm) (is : List loans.CommandInterface)
    → create (hwm_params p) ≡ value h
    → p.command_interfaces ≢ []
    → length is ≡ length (command_interface_configuration p)
    → length is < size_limit
    → IsArmed loans h is
unfolding hwm_params command_interface_configuration
configured-IsArmed loans p h is e n l small =
    let same = create_params (hwm_params p) h e in
    let stride : h.params.command_stride ≡ length p.command_interfaces =
      ap (λ q. q.command_stride) same in
    let dofs : h.params.num_dofs ≡ length p.dof_names = ap (λ q. q.num_dofs) same in
    let has : h.params.has_velocity_command ≡ ltb 1 (length p.command_interfaces) =
      ap (λ q. q.has_velocity_command) same in
    let size = length-interface_names p.dof_names p.command_interfaces in
    record {
      connected = ap (λ q. q.command_interfaces) same;
      strided = omega (arith, stride, length_pos p.command_interfaces n);
      velocity_strided = λ v. ground (arith, stride, has, v);
      loaned = rw (stride, dofs) (omega (arith, l, size));
      counted = small;
    }

str_eq_refl : (s : String) → str_eq s s ≡ true
str_eq_refl s = (eq_iff s s).1 refl

contains_last : (s : String) (xs : List String) → contains s (xs ++ (s ∷ [])) ≡ true
unfolding contains
contains_last s [] = rw (str_eq_refl s)
contains_last s (x ∷ xs) = ground (arith, contains_last s xs)

-- When the parameters could be read, the controller is among the controllers to activate, and at
-- most it was added, at the end.
pub on_init_self :
    (node_name : String) (before p : Settings)
    → let (r, p') = on_init node_name before (some p) in
      (r ≡ success)
      × (contains node_name p'.controllers_to_activate ≡ true)
      × ((p'.controllers_to_activate ≡ p.controllers_to_activate)
          ⊎ ((contains node_name p.controllers_to_activate ≡ false)
              × (p'.controllers_to_activate ≡ p.controllers_to_activate ++ (node_name ∷ []))))
unfolding on_init
on_init_self node_name before p = ground (arith, contains_last node_name p.controllers_to_activate)

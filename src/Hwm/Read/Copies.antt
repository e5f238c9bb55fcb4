-- ===== src/Hwm/Read/Copies.antt =====
-- `ReadStatus` as a whole: it stays in bounds, copies every reading when it succeeds, and leaves
-- the timestamps alone when it fails.
use icon_hwm_controller.Prelude.{
  ℕ, ◌+◌, ◌*◌, ◌≤◌, ◌<◌, ◌≡◌, refl, ◌≢◌, ◌∙◌, ◌⊎◌, inl, inr, true, false, List, Option, none, some,
  arith, length, get_elem?, Bool-cases,
}
use icon_hwm_controller.Status.{Status, is_ok, Checked, undefined, done, Checked-total}
use icon_hwm_controller.Hwm.Params.{Hwm, to_controller}
use icon_hwm_controller.Hwm.Interfaces.{Loans, Joints}
use icon_hwm_controller.Hwm.Strides.{size_limit, slot, slot-eq, slot_below}
use icon_hwm_controller.Hwm.Read.{read_loop, read_status}
use icon_hwm_controller.Hwm.Read.Loop.{Reads, loop_frame, loop-Reads, loop-defined}

module _ (loans : Loans) (h : Hwm) (interfaces : List loans.StateInterface) where
  open loans use {Double}

  -- The module is connected, its loaned interfaces come in full groups, in a vector that a `size_t` can
  -- count, and its buffers have an element for each joint.
  pub record IsReady (j : Joints Double) : Type 0 where
    pub connected : h.params.state_interfaces ≡ to_controller
    pub strided : 0 < h.params.state_stride
    pub velocity_strided : h.params.has_velocity_state ≡ true → 1 < h.params.state_stride
    pub loaned : h.params.num_dofs * h.params.state_stride ≤ length interfaces
    pub counted : length interfaces < size_limit
    pub position_room : length j.position.values ≡ h.params.num_dofs
    pub velocity_room : length j.velocity.values ≡ h.params.num_dofs

  abbrev pub position_loop : List Double → Checked (Option ℕ × List Double)
  position_loop = read_loop loans h.params.num_dofs 0 interfaces h.params.state_stride 0

  abbrev pub velocity_loop : List Double → Checked (Option ℕ × List Double)
  velocity_loop = read_loop loans h.params.num_dofs 0 interfaces h.params.state_stride 1

  -- The indices of a module that is ready do not wrap around.
  exact :
      (j : Joints Double)
      → IsReady j
      → (offset i : ℕ) → i < h.params.num_dofs
      → offset < h.params.state_stride
      → slot offset i h.params.state_stride ≡ offset + i * h.params.state_stride
  exact j v offset i b o =
      slot-eq h.params.num_dofs h.params.state_stride (omega (arith, v.loaned, v.counted)) offset i
        b o

  inside :
      (j : Joints Double)
      → IsReady j
      → (offset i : ℕ) → i < h.params.num_dofs
      → offset < h.params.state_stride
      → slot offset i h.params.state_stride < length interfaces
  inside j v offset i b o =
      let below =
        slot_below h.params.num_dofs h.params.state_stride (omega (arith, v.loaned, v.counted))
          offset i h.params.num_dofs b (omega arith) o in
      omega (arith, below, v.loaned)

  -- The two loops of a success, and what became of both buffers.
  read_status-ok :
      (now : ℕ) (j j' : Joints Double) (s : Status)
      → read_status loans h interfaces now j ≡ done (s, j')
      → is_ok s ≡ true
      → (position_loop j.position.values ≡ done (none, j'.position.values))
        × (j'.position.updated_at ≡ some now)
        × (j'.velocity.updated_at ≡ some now)
        × (h.params.has_velocity_state ≡ true
            → velocity_loop j.velocity.values ≡ done (none, j'.velocity.values))
        × (h.params.has_velocity_state ≡ false → j'.velocity.values ≡ j.velocity.values)
  unfolding read_status
  read_status-ok now j j' s e o = ground arith

  -- A call that returns an error leaves both timestamps as they were.
  pub read_status_stamps :
      (now : ℕ) (j j' : Joints Double) (s : Status)
      → read_status loans h interfaces now j ≡ done (s, j')
      → is_ok s ≡ false
      → (j'.position.updated_at ≡ j.position.updated_at)
        × (j'.velocity.updated_at ≡ j.velocity.updated_at)
  unfolding read_status
  read_status_stamps now j j' s e o = ground arith

  -- A call that succeeds on a connected module with full groups of state interfaces and buffers with an
  -- element for each joint has stored each joint's own reading, and stamped both buffers with the time of
  -- the call; the velocities are read where the module has them, and are left as they were otherwise.
  pub read_status_copies :
      (now : ℕ) (j j' : Joints Double) (s : Status)
      → IsReady j
      → read_status loans h interfaces now j ≡ done (s, j')
      → is_ok s ≡ true
      → (i : ℕ) → i < h.params.num_dofs
      → ((v : Double) × Reads loans interfaces h.params.state_stride 0 i v
          × (get_elem? j'.position.values i ≡ some v))
        × (((h.params.has_velocity_state ≡ false) × (j'.velocity.values ≡ j.velocity.values))
            ⊎ ((v : Double) × Reads loans interfaces h.params.state_stride 1 i v
                × (get_elem? j'.velocity.values i ≡ some v)))
        × (j'.position.updated_at ≡ some now)
        × (j'.velocity.updated_at ≡ some now)
  read_status_copies now j j' s v e o i b =
      let (ps, pt, vt, vs, same) = read_status-ok now j j' s e o in
      (
        loop-Reads loans interfaces h.params.state_stride 0 h.params.num_dofs 0 _ _
            (λ x c. exact j v 0 x (omega arith) v.strided) ps i (omega arith) (omega arith),
        elim (Bool-cases h.params.has_velocity_state) [
          | inl has ↦ inr (
              loop-Reads loans interfaces h.params.state_stride 1 h.params.num_dofs 0 _ _
                (λ x c. exact j v 1 x (omega arith) (v.velocity_strided has)) (vs has) i
                (omega arith) (omega arith))
          | inr hasnt ↦ inl (hasnt, same hasnt)
        ],
        pt,
        vt,
      )

  pub position_loop-defined :
      (j : Joints Double)
      → IsReady j
      → (r : Option ℕ) × (ps : List Double) × (position_loop j.position.values ≡ done (r, ps))
  position_loop-defined j v =
      loop-defined loans interfaces h.params.state_stride 0 h.params.num_dofs 0 j.position.values
        (λ i b. inside j v 0 i (omega arith) v.strided) (omega (arith, v.position_room))

  pub velocity_loop-defined :
      (j : Joints Double)
      → IsReady j
      → h.params.has_velocity_state ≡ true
      → (r : Option ℕ) × (vs : List Double) × (velocity_loop j.velocity.values ≡ done (r, vs))
  velocity_loop-defined j v has =
      loop-defined loans interfaces h.params.state_stride 1 h.params.num_dofs 0 j.velocity.values
        (λ i b. inside j v 1 i (omega arith) (v.velocity_strided has))
        (omega (arith, v.velocity_room))

  abbrev list_or : Checked (Option ℕ × List Double) → List Double → List Double
  list_or undefined d = d
  list_or (done (r, b)) d = b

  loop_length :
      (offset : ℕ) (b : List Double) (c : Checked (Option ℕ × List Double))
      → read_loop loans h.params.num_dofs 0 interfaces h.params.state_stride offset b ≡ c
      → length (list_or c b) ≡ length b
  loop_length offset b undefined e = refl
  loop_length offset b (done (r, b')) e =
      (loop_frame loans interfaces h.params.state_stride offset h.params.num_dofs 0 b b' r e).0

  -- The buffers keep their lengths, whatever the outcome.
  pub read_status_lengths :
      (now : ℕ) (j j' : Joints Double) (s : Status)
      → read_status loans h interfaces now j ≡ done (s, j')
      → (length j'.position.values ≡ length j.position.values)
        × (length j'.velocity.values ≡ length j.velocity.values)
  unfolding read_status
  read_status_lengths now j j' s e = ground (
    arith,
    loop_length 0 j.position.values (position_loop j.position.values) refl,
    loop_length 1 j.velocity.values (velocity_loop j.velocity.values) refl,
  )

  -- A call keeps the module ready, whatever its outcome.
  read_status-IsReady :
      (now : ℕ) (j j' : Joints Double) (s : Status)
      → read_status loans h interfaces now j ≡ done (s, j')
      → IsReady j
      → IsReady j'
  read_status-IsReady now j j' s e v =
      let (p, w) = read_status_lengths now j j' s e in
      record {
        connected = v.connected;
        strided = v.strided;
        velocity_strided = v.velocity_strided;
        loaned = v.loaned;
        counted = v.counted;
        position_room = p ∙ v.position_room;
        velocity_room = w ∙ v.velocity_room;
      }

  read_status-ne-undefined :
      (now : ℕ) (j : Joints Double) → IsReady j → read_status loans h interfaces now j ≢ undefined
  unfolding read_status
  read_status-ne-undefined now j v =
      let (r, ps, e) = position_loop-defined j v in
      elim (Bool-cases h.params.has_velocity_state) [
        | inl has ↦ let (r', vs, e') = velocity_loop-defined j v has in ground arith
        | inr hasnt ↦ ground arith
      ]

  -- A module that is connected, with full groups of state interfaces and buffers with an element for
  -- each joint, never reads or writes out of range: the call returns, and the module stays that way.
  pub read_status-defined :
      (now : ℕ) (j : Joints Double)
      → IsReady j
      → (s : Status) × (j' : Joints Double) × (read_status loans h interfaces now j ≡ done (s, j'))
        × IsReady j'
  read_status-defined now j v =
      let (a, e) =
        Checked-total (read_status loans h interfaces now j) (read_status-ne-undefined now j v) in
      (a.0, a.1, e, read_status-IsReady now j a.1 a.0 e v)

-- ===== src/Loopback.antt =====
-- A command that comes back: over hardware whose state interfaces show what the command interfaces
-- were told, the module reads the targets that it wrote.
pub mod Total
use icon_hwm_controller.Prelude.{
  ℕ, ◌+◌, ◌*◌, ◌<◌, ◌≡◌, sym, ap, ◌∙◌, ◌⊎◌, inl, inr, Bool, true, false, List, map, some, arith,
  length, get_elem?, get_elem?-map, get_elem?-total, lt_of_get_elem?, eq_of_get_elem?, Bool-cases,
}
use icon_hwm_controller.Status.{Status, is_ok, done, value}
use icon_hwm_controller.Hwm.Params.{Hwm}
use icon_hwm_controller.Hwm.Interfaces.{Loans, Joints}
use icon_hwm_controller.Hwm.Read.{read_status}
use icon_hwm_controller.Hwm.Read.Loop.{Reads}
use icon_hwm_controller.Hwm.Read.Copies.{IsReady, read_status_copies, read_status_lengths}
use icon_hwm_controller.Hwm.Apply.{Command, apply_command}
use icon_hwm_controller.Hwm.Apply.Loop.{Wrote}
use icon_hwm_controller.Hwm.Apply.Bounds.{IsArmed}
use icon_hwm_controller.Hwm.Apply.Writes.{apply_command_writes}

module _ (loans : Loans) (mirror : loans.CommandInterface → loans.StateInterface) where
  open loans use {Double, StateInterface, CommandInterface, set_value, get_optional}

  -- A value that a command interface accepted is what its state interface reads.
  abbrev pub Mirrors : Type 0
  Mirrors =
      (c : CommandInterface) (v : Double)
      → (set_value c v).1 ≡ true
      → get_optional (mirror (set_value c v).0) ≡ some v

  -- What a mirrored interface was told is what is read there.
  told_and_read :
      (has : Bool) (written stride : ℕ) (vel : List Double) (is is' : List CommandInterface)
      (k offset j : ℕ) (v w : Double)
      → Mirrors
      → k ≡ offset + j * stride
      → Wrote loans has written vel is is' k v
      → Reads loans (map mirror is') stride offset j w
      → w ≡ v
  told_and_read has written stride vel is is' k offset j v w law at wrote reads =
      let there = get_elem?-map mirror is' k wrote.written in
      let found = ap (get_elem? (map mirror is')) at ∙ reads.found in
      let same : reads.interface ≡ mirror (set_value wrote.interface v).0 = cc (there, found) in
      let told = law wrote.interface v wrote.accepted in
      cc (reads.reading, ap get_optional same, told)

  accepted_sizes :
      (h : Hwm) (acquired : Bool) (c : Command Double) (is is' : List CommandInterface) (s : Status)
      → apply_command loans h acquired (value c) is ≡ done (s, is')
      → is_ok s ≡ true
      → (length c.position ≡ h.params.num_dofs)
        × (length c.velocity_feedforward ≡ h.params.num_dofs)
  unfolding apply_command
  accepted_sizes h acquired c is is' s e o = ground arith

  module _ (h : Hwm) (acquired : Bool) (c : Command Double) (is is' : List CommandInterface)
      (s r : Status) (now : ℕ) (j j' : Joints Double) (law : Mirrors)
      (strides : h.params.state_stride ≡ h.params.command_stride) (armed : IsArmed loans h is)
      (ready : IsReady loans h (map mirror is') j)
      (wrote : apply_command loans h acquired (value c) is ≡ done (s, is'))
      (accepted : is_ok s ≡ true) (read : read_status loans h (map mirror is') now j ≡ done (r, j'))
      (fine : is_ok r ≡ true) where
    position_returns :
        (i : ℕ) (p : Double)
        → get_elem? c.position i ≡ some p
        → get_elem? j'.position.values i ≡ some p
    position_returns i p at =
        let (size, _) = accepted_sizes h acquired c is is' s wrote accepted in
        let below : i < h.params.num_dofs = omega (arith, lt_of_get_elem? c.position i at) in
        let (told, _) =
          apply_command_writes loans h acquired c is is' s armed wrote accepted i p at in
        let ((w, reads, stored), _, _, _) =
          read_status_copies loans h (map mirror is') now j j' r ready read fine i below in
        let same : w ≡ p =
          told_and_read h.params.has_velocity_command h.params.command_stride h.params.state_stride
            c.velocity_feedforward is is' (i * h.params.command_stride) 0 i p w law
            (omega (arith, ap (λ (n : ℕ). i * n) strides)) told reads in
        stored ∙ ap some same

    velocity_returns :
        h.params.has_velocity_command ≡ true
        → h.params.has_velocity_state ≡ true
        → (i : ℕ) (v : Double) → get_elem? c.velocity_feedforward i ≡ some v
        → get_elem? j'.velocity.values i ≡ some v
    velocity_returns commands reads_too i v at =
        let (size, size') = accepted_sizes h acquired c is is' s wrote accepted in
        let below : i < h.params.num_dofs =
          omega (arith, lt_of_get_elem? c.velocity_feedforward i at) in
        let (p, has_p) = get_elem?-total c.position i (omega arith) in
        let (_, told) =
          apply_command_writes loans h acquired c is is' s armed wrote accepted i p has_p in
        let (_, back, _, _) =
          read_status_copies loans h (map mirror is') now j j' r ready read fine i below in
        elim told [
          | inl off ↦ absurd (ground (arith, off, commands))
          | inr (u, at', told') ↦ elim back [
            | inl (off, _) ↦ absurd (ground (arith, off, reads_too))
            | inr (w, reads, stored) ↦
                let same : w ≡ u =
                  told_and_read h.params.has_velocity_command h.params.command_stride
                    h.params.state_stride c.velocity_feedforward is is'
                    (1 + i * h.params.command_stride) 1 i u w law
                    (omega (arith, ap (λ (n : ℕ). i * n) strides)) told' reads in
                stored ∙ ap some same ∙ sym at' ∙ at
          ]
        ]

    -- When the hardware mirrors accepted commands in its state interfaces, strides agree, and a command
    -- and the read after it succeed, the position buffer is the position command, and so is the
    -- velocity buffer the velocity command where the module both commands and reads velocities.
    pub loopback :
        (j'.position.values ≡ c.position)
        × ((h.params.has_velocity_command ≡ false)
            ⊎ (h.params.has_velocity_state ≡ false)
            ⊎ (j'.velocity.values ≡ c.velocity_feedforward))
    loopback =
        let (size, size') = accepted_sizes h acquired c is is' s wrote accepted in
        let (kept, kept') = read_status_lengths loans h (map mirror is') now j j' r read in
        (
          sym (
              eq_of_get_elem? c.position j'.position.values
                (omega (arith, kept, ready.position_room)) position_returns),
          elim (Bool-cases h.params.has_velocity_command) [
            | inr off ↦ inl off
            | inl commands ↦ elim (Bool-cases h.params.has_velocity_state) [
              | inr off ↦ inr (inl off)
              | inl reads_too ↦ inr (
                  inr (
                    sym (
                      eq_of_get_elem? c.velocity_feedforward j'.velocity.values
                        (omega (arith, kept', ready.velocity_room))
                        (velocity_returns commands reads_too))))
            ]
          ],
        )

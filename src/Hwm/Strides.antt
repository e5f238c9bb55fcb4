-- ===== src/Hwm/Strides.antt =====
-- Indices of the form `offset + joint * stride` into the vectors of loaned interfaces, computed in the
-- 64 bits of a `size_t`.
use icon_hwm_controller.Prelude.{ℕ, suc, ◌+◌, ◌*◌, ◌%◌, ◌^◌, ◌<◌, ◌≤◌, ◌≡◌, arith}

-- One more than the largest `size_t`.
abbrev pub size_limit : ℕ
size_limit = 2 ^ 64

unfoldable pub slot : ℕ → ℕ → ℕ → ℕ
slot offset i stride = (offset + i * stride % size_limit) % size_limit

-- Below the stride an offset stays within its joint's group.
group_below : (offset i n stride : ℕ) → i < n → offset < stride → offset + i * stride < n * stride
group_below offset i n stride h o = grind arith

exact :
    (offset product : ℕ)
    → offset + product < size_limit
    → (offset + product % size_limit) % size_limit ≡ offset + product
exact offset product h = omega arith

-- While the groups of all `n` joints can be counted, the index does not wrap around.
module _ (n stride : ℕ) (countable : n * stride ≤ size_limit) where
  pub slot-eq :
      (offset i : ℕ) → i < n → offset < stride → slot offset i stride ≡ offset + i * stride
  unfolding slot
  slot-eq offset i h o =
      exact offset (i * stride) (omega (arith, group_below offset i n stride h o))

  -- The index stays within its joint's group.
  pub slot_bounds :
      (offset i : ℕ)
      → i < n
      → offset < stride
      → (i * stride ≤ slot offset i stride) × (slot offset i stride < suc i * stride)
  slot_bounds offset i h o =
      let same = slot-eq offset i h o in
      let below = group_below offset i (suc i) stride (omega arith) o in
      (omega (arith, same), omega (arith, same, below))

  pub slot_below :
      (offset i m : ℕ) → i < m → m ≤ n → offset < stride → slot offset i stride < m * stride
  slot_below offset i m h b o =
      omega (arith, slot-eq offset i (omega arith) o, group_below offset i m stride h o)

  pub slots_apart :
      (offset offset' i j : ℕ)
      → i < j
      → j < n
      → offset < stride
      → offset' < stride
      → slot offset i stride < slot offset' j stride
  slots_apart offset offset' i j h b o o' =
      let (above, _) = slot_bounds offset' j b o' in
      omega (arith, above, slot_below offset i j h (omega arith) o)

-- ===== src/Utils/Conn.antt =====
-- v2/utils/conn.go: the split of a transfer into parts for several senders. A `ByteSize` is a uint64.
pub mod Sizes
use flightsim.Prelude.{
  ℕ, zero, suc, ◌+◌, ◌-◌, ◌*◌, ◌/◌, ◌%◌, ◌^◌, List, [], ◌∷◌, ◌++◌, Option, none, some, length,
  replicate, ltb, ◌==◌, if◌then◌else◌,
}

-- `computeSenders`, for a `min_send_size` that is not 0: Go panics at 0.
unfoldable pub compute_senders : ℕ → ℕ → List ℕ
compute_senders to_send min_send_size =
    let num_senders = to_send / min_send_size in
    let senders = replicate num_senders min_send_size in
    let leftover = to_send - num_senders * min_send_size in
    if leftover == 0 then senders else senders ++ (leftover ∷ [])

-- The loop of `ComputeSenderSizes`, in which `minSendSize` grows by `inc` in uint64 arithmetic;
-- `none` means that the fuel ran out.
unfoldable pub sizes_loop : ℕ → ℕ → ℕ → ℕ → ℕ → Option (List ℕ)
sizes_loop zero max_senders to_send inc min_send_size =
    let senders = compute_senders to_send min_send_size in
    if ltb max_senders (length senders) then none else some senders
sizes_loop (suc fuel) max_senders to_send inc min_send_size =
    let senders = compute_senders to_send min_send_size in
    let rest = sizes_loop fuel max_senders to_send inc ((min_send_size + inc) % 2 ^ 64) in
    if ltb max_senders (length senders) then rest else some senders

-- One round for each multiple of the least size up to `to_send` is enough (Utils.Conn.Sizes).
unfoldable pub compute_sender_sizes : ℕ → ℕ → ℕ → Option (List ℕ)
compute_sender_sizes max_senders to_send min_send_size =
    sizes_loop (to_send / min_send_size) max_senders to_send min_send_size min_send_size

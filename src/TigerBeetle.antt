-- ===== src/TigerBeetle.antt =====
-- tigerbeetle-setup/main.go and tigerbeetle-setup/bench/tb.go: the transfers that are sent to
-- TigerBeetle, which is a parameter.
pub mod Waterfall
pub mod Chunks
pub mod Worker
use playground_ledger.Prelude.{
  ℕ, suc, ◌+◌, ◌-◌, ◌%◌, ◌^◌, ◌==◌, Bool, true, false, Option, none, some, List, [], ◌∷◌, ltb, leb,
  if◌then◌else◌,
}

-- What the program reads of an account. Amounts have 128 bits.
pub record TbAccount : Type 0 where
  pub id : ℕ
  pub debits_pending : ℕ
  pub debits_posted : ℕ
  pub credits_posted : ℕ

pub record TransferFlags : Type 0 where
  pub linked : Bool
  pub balancing_debit : Bool
  pub balancing_credit : Bool

abbrev pub no_flags : TransferFlags
no_flags = record { linked = false; balancing_debit = false; balancing_credit = false }

abbrev pub linked_flags : TransferFlags
linked_flags = record { linked = true; balancing_debit = false; balancing_credit = false }

-- The ledger and the code are 1 in every transfer.
pub record Transfer : Type 0 where
  pub id : ℕ
  pub debit_account_id : ℕ
  pub credit_account_id : ℕ
  pub amount : ℕ
  pub flags : TransferFlags

-- log.Fatalf on a number of more than 64 bits ends the program: `none`.
unfoldable pub to_uint64 : ℕ → Option ℕ
to_uint64 v = if ltb v (2 ^ 64) then some v else none

abbrev pub left_of : ℕ → ℕ → ℕ
left_of credits debits = if leb credits debits then 0 else credits - debits

abbrev pub available_of : Option ℕ → Option ℕ → Option ℕ → Option ℕ
available_of (some credits) (some posted) (some pending) =
    some (left_of credits ((posted + pending) % 2 ^ 64))
available_of _ _ _ = none

-- The sum of the debits wraps at 2 ^ 64.
unfoldable pub available : TbAccount → Option ℕ
unfolding to_uint64
available a =
    available_of (to_uint64 a.credits_posted) (to_uint64 a.debits_posted)
      (to_uint64 a.debits_pending)

abbrev pub draw_transfer : ℕ → ℕ → ℕ → ℕ → Transfer
draw_transfer id source dest draw = record {
  id = id;
  debit_account_id = source;
  credit_account_id = dest;
  amount = draw;
  flags = no_flags;
}

abbrev pub add_draw : Transfer → Option (List Transfer) → Option (List Transfer)
add_draw t none = none
add_draw t (some ts) = some (t ∷ ts)

-- All but the last are linked.
unfoldable pub link : List Transfer → List Transfer
link [] = []
link (t ∷ []) = t ∷ []
link (t ∷ u ∷ ts) = record t { flags = linked_flags } ∷ link (u ∷ ts)

abbrev pub linked_of : Option (List Transfer) → Option (List Transfer)
linked_of none = none
linked_of (some ts) = some (link ts)

-- `new_id` is types.ID, by the number of those drawn.
module _ (new_id : ℕ → ℕ) (dest : ℕ) where
  abbrev pub draw_from :
      ℕ → ℕ → ℕ → Option ℕ → (ℕ → ℕ → Option (List Transfer)) → Option (List Transfer)
  draw_from n remaining source none rest = none
  draw_from n remaining source (some avail) rest =
      let draw = if ltb remaining avail then remaining else avail in
      if avail == 0
      then rest n remaining
      else add_draw (draw_transfer (new_id n) source dest draw) (rest (suc n) (remaining - draw))

  unfoldable pub draw_loop : List TbAccount → ℕ → ℕ → Option (List Transfer)
  draw_loop [] n remaining = some []
  draw_loop (src ∷ sources) n remaining =
      let rest = draw_loop sources in
      if remaining == 0 then some [] else draw_from n remaining src.id (available src) rest

  unfoldable pub build_waterfall_transfers : List TbAccount → ℕ → Option (List Transfer)
  unfolding draw_loop
  build_waterfall_transfers sources target = linked_of (draw_loop sources 0 target)

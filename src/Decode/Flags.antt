-- ===== src/Decode/Flags.antt =====
-- permanode/src/decode.rs, `contract_flags` and `contract_flags_of`.
use gb_parano1d_permanode.Prelude.{
  ℕ, suc, Bool, not, ◌==◌, String, List, [], ◌∷◌, get_elem?, if◌then◌else◌,
}
use Prim.Native.Nat.{bit_and, bit_or}
use gb_parano1d_permanode.Prelude.Result.{Result, ok, ◌>>=◌, require}
use gb_parano1d_permanode.Decode.Chain.{Chain, Page, Group, PageStream}
use gb_parano1d_permanode.Decode.Bound.{decode_bound_block}

abbrev pub contract_call : ℕ
contract_call = 1

abbrev pub contract_close : ℕ
contract_close = 2

abbrev bit_is_set : ℕ → ℕ → Bool
bit_is_set bitmap bit = not (bit_and bitmap bit == 0)

-- The flags that a page's validity bitmap carries.
unfoldable pub flags_of_bitmap : Chain → ℕ → ℕ
flags_of_bitmap chain bitmap =
    if bit_is_set bitmap chain.paged_spend_contract_bit
    then if bit_is_set bitmap chain.paged_spend_terminal_bit
      then bit_or contract_call contract_close
      else contract_call
    else 0

-- The loop over the groups, from `index` on.
unfoldable pub flags_of_groups :
    Chain → List Page → PageStream → ℕ → List Group → Result (List (ℕ × ℕ))
unfolding flags_of_bitmap
flags_of_groups chain pages stream index [] = ok []
flags_of_groups chain pages stream index (group ∷ groups) = do
  first ← require (get_elem? pages (stream.user_body_start group.start_page))
  let f = flags_of_bitmap chain first.validity_bitmap
  rest ← flags_of_groups chain pages stream (suc index) groups
  ok (if f == 0 then rest else (stream.user_logical_index index, f) ∷ rest)

unfoldable pub contract_flags_of : Chain → List Page → Result (List (ℕ × ℕ))
unfolding flags_of_groups
contract_flags_of chain pages = do
  stream ← require (chain.validate_block_page_stream pages)
  flags_of_groups chain pages stream 0 stream.groups

unfoldable pub contract_flags : Chain → List ℕ → ℕ → String → Result (List (ℕ × ℕ))
unfolding decode_bound_block contract_flags_of
contract_flags chain bytes expected_height expected_hash = do
  block ← decode_bound_block chain bytes expected_height expected_hash
  contract_flags_of chain block.transactions

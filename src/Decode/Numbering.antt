-- ===== src/Decode/Numbering.antt =====
-- permanode/src/decode.rs, `decode_retained_block`: the creation ids of a block's outputs.
use gb_parano1d_permanode.Prelude.{
  ℕ, suc, ◌+◌, ◌-◌, ◌≡◌, refl, sym, ap, subst, ◌∙◌, true, String, List, [], ◌∷◌, ◌++◌, drop, arith,
  length, not, ◌==◌, leb, get_elem?, Bool-cases, inl, inr,
}
use mathlib.Core.List.{append_assoc}
use gb_parano1d_permanode.Prelude.Result.{ok, bind-eq, require-eq, ensure-eq}
use gb_parano1d_permanode.Store.Bodies.{
  BlockTransactionOutputInfo, BlockTransactionInfo, RetainedBlockInfo,
}
use gb_parano1d_permanode.Decode.Chain.{Chain, Block, Page, Group, PageStream, LiveOutput}
use gb_parano1d_permanode.Decode.Retained.{
  number_outputs, read_pages, slice, to_u16, count_development_outputs, development_info,
  development_infos, group_info, group_infos, retained_of_block, decode_retained_block,
}
use gb_parano1d_permanode.Decode.Bound.{decode_bound_block}

-- The ids count up by one, from the one after `start` to `end`.
abbrev pub IsRun : ℕ → List ℕ → ℕ → Type 0
IsRun start [] end = start ≡ end
IsRun start (id ∷ ids) end = (id ≡ suc start) × IsRun (suc start) ids end

abbrev pub ids_of : List BlockTransactionOutputInfo → List ℕ
ids_of [] = []
ids_of (o ∷ os) = o.creation_id ∷ ids_of os

-- The creation ids of the outputs of some transactions, in their order.
abbrev pub creation_ids : List BlockTransactionInfo → List ℕ
creation_ids [] = []
creation_ids (tx ∷ txs) = ids_of tx.outputs ++ creation_ids txs

IsRun-append : (a b c : ℕ) (xs ys : List ℕ) → IsRun a xs b → IsRun b ys c → IsRun a (xs ++ ys) c
IsRun-append a b c [] ys p q = subst (λ (n : ℕ). IsRun n ys c) (sym p) q
IsRun-append a b c (x ∷ xs) ys (head, p) q = (head, IsRun-append (suc a) b c xs ys p q)

ids_of-append :
    (xs ys : List BlockTransactionOutputInfo) → ids_of (xs ++ ys) ≡ ids_of xs ++ ids_of ys
ids_of-append [] ys = refl
ids_of-append (x ∷ xs) ys = rw (ids_of-append xs ys) refl

creation_ids-append :
    (xs ys : List BlockTransactionInfo)
    → creation_ids (xs ++ ys) ≡ creation_ids xs ++ creation_ids ys
creation_ids-append [] ys = refl
creation_ids-append (x ∷ xs) ys =
    rw (creation_ids-append xs ys)
      (sym (append_assoc (ids_of x.outputs) (creation_ids xs) (creation_ids ys)))

number_outputs-IsRun :
    (page cursor : ℕ) (os : List LiveOutput)
    → IsRun cursor (ids_of (number_outputs page cursor os)) (cursor + length os)
unfolding number_outputs
number_outputs-IsRun page cursor [] = omega arith
number_outputs-IsRun page cursor (o ∷ os) =
    let end : suc cursor + length os ≡ cursor + suc (length os) = omega arith in
    (
      refl,
      subst (λ (n : ℕ). IsRun (suc cursor) (ids_of (number_outputs page (suc cursor) os)) n) end
          (number_outputs-IsRun page (suc cursor) os),
    )

read_pages-IsRun :
    (index cursor : ℕ) (pages : List Page)
    → IsRun cursor (ids_of (read_pages index cursor pages).2) (read_pages index cursor pages).3
unfolding read_pages
read_pages-IsRun index cursor [] = refl
read_pages-IsRun index cursor (page ∷ pages) =
    let outs = number_outputs index cursor page.live_outputs in
    let after = cursor + length page.live_outputs in
    let rest = read_pages (suc index) after pages in
    rw (ids_of-append outs rest.2) (
      IsRun-append cursor after rest.3 (ids_of outs) (ids_of rest.2)
        (number_outputs-IsRun index cursor page.live_outputs)
        (read_pages-IsRun (suc index) after pages))

-- The transactions of a decoded body, put together from the coinbase, the payout and the groups.
whole-IsRun :
    (start mid end alloc : ℕ) (dev users : List BlockTransactionInfo)
    (coinbase : BlockTransactionInfo) (r whole : RetainedBlockInfo)
    → IsRun start (creation_ids dev) mid
    → IsRun mid (creation_ids users) end
    → (end == alloc) ≡ true
    → whole.transactions ≡ coinbase ∷ (dev ++ users)
    → ok whole ≡ ok r
    → IsRun start (creation_ids (drop r.transactions 1)) alloc
whole-IsRun start mid end alloc dev users coinbase r whole p q counted made e =
    let same : whole ≡ r = cc in
    let end_eq : end ≡ alloc = ground arith in
    let rest : creation_ids (drop r.transactions 1) ≡ creation_ids dev ++ creation_ids users =
      ap (λ (x : RetainedBlockInfo). creation_ids (drop x.transactions 1)) (sym same)
      ∙ ap (λ (txs : List BlockTransactionInfo). creation_ids (drop txs 1)) made
      ∙ creation_ids-append dev users in
    rw (rest, ← end_eq) (IsRun-append start mid end (creation_ids dev) (creation_ids users) p q)

module _ (chain : Chain) where
  group_info-IsRun :
      (pages : List Page) (stream : PageStream) (index cursor : ℕ) (group : Group)
      (info : BlockTransactionInfo) (end : ℕ)
      → group_info chain pages stream index cursor group ≡ ok (info, end)
      → IsRun cursor (ids_of info.outputs) end
  unfolding group_info
  group_info-IsRun pages stream index cursor group info end e =
      let (own, got, done) =
        bind-eq (slice pages (stream.user_body_start group.start_page) group.page_count) _
          (info, end) e in
      let outs : (read_pages 0 cursor own).2 ≡ info.outputs = cc in
      let last : (read_pages 0 cursor own).3 ≡ end = cc in
      rw (← outs, ← last) (read_pages-IsRun 0 cursor own)

  group_infos-IsRun :
      (pages : List Page) (stream : PageStream) (index cursor : ℕ) (groups : List Group)
      (infos : List BlockTransactionInfo) (end : ℕ)
      → group_infos chain pages stream index cursor groups ≡ ok (infos, end)
      → IsRun cursor (creation_ids infos) end
  unfolding group_infos
  group_infos-IsRun pages stream index cursor [] infos end e =
      let none_left : [] ≡ infos = cc in let same : cursor ≡ end = cc in rw (← none_left) same
  group_infos-IsRun pages stream index cursor (group ∷ groups) infos end e =
      let (first, first_eq, e1) =
        bind-eq (group_info chain pages stream index cursor group) _ (infos, end) e in
      let (rest, rest_eq, e2) =
        bind-eq (group_infos chain pages stream (suc index) first.1 groups) _ (infos, end) e1 in
      let both : first.0 ∷ rest.0 ≡ infos = cc in
      let last : rest.1 ≡ end = cc in
      rw (← both, ← last)
        (IsRun-append cursor first.1 rest.1 (ids_of first.0.outputs) (creation_ids rest.0)
          (group_info-IsRun pages stream index cursor group first.0 first.1 first_eq)
          (group_infos-IsRun pages stream (suc index) first.1 groups rest.0 rest.1 rest_eq))

  development_infos-IsRun :
      (stream : PageStream) (pages : List Page) (txids : List String) (outputs cursor : ℕ)
      (infos : List BlockTransactionInfo) (end : ℕ)
      → development_infos chain stream pages txids outputs cursor ≡ ok (infos, end)
      → IsRun cursor (creation_ids infos) end
  unfolding development_infos development_info
  development_infos-IsRun stream pages txids outputs cursor infos end e =
      elim (Bool-cases stream.has_development_payout) [
        | inr absent ↦
            let e' : ok ([], cursor) ≡ ok (infos, end) = rw absent at e in
            let none_there : [] ≡ infos = cc in
            let same : cursor ≡ end = cc in rw (← none_there) same
        | inl paid ↦
            let e' = rw paid at e in
            let (payout, found, e1) = require-eq (get_elem? pages 1) _ (infos, end) e' in
            let (txid, named, e2) = require-eq (get_elem? txids 1) _ (infos, end) e1 in
            let one : development_info chain payout outputs cursor txid ∷ [] ≡ infos = cc in
            let last : cursor + length payout.live_outputs ≡ end = cc in
            rw (← one, ← last)
              (IsRun-append cursor (cursor + length payout.live_outputs) _
                (ids_of (number_outputs 0 cursor payout.live_outputs)) []
                (number_outputs-IsRun 0 cursor payout.live_outputs) refl)
      ]

  retained_of_block-IsRun :
      (block : Block) (block_bytes : ℕ) (r : RetainedBlockInfo)
      → retained_of_block chain block block_bytes ≡ ok r
      → (start : ℕ) × IsRun start (creation_ids (drop r.transactions 1)) block.alloc_counter
  unfolding retained_of_block
  retained_of_block-IsRun block block_bytes r e =
      let pages = block.transactions in
      let (stream, s_eq, e1) = require-eq (chain.validate_block_page_stream pages) _ r e in
      let (txids, t_eq, e2) = require-eq (chain.logical_txids pages) _ r e1 in
      let (coinbase, c_eq, e3) = require-eq (get_elem? pages 0) _ r e2 in
      let (outputs, o_eq, e4) = bind-eq (to_u16 (length coinbase.live_outputs)) _ r e3 in
      let (payouts, p_eq, e5) = bind-eq (count_development_outputs stream pages) _ r e4 in
      let minted = stream.live_outputs + outputs + payouts in
      let (enough, e6) = ensure-eq (leb minted block.alloc_counter) _ r e5 in
      let (txid, x_eq, e7) = require-eq (get_elem? txids 0) _ r e6 in
      let start = block.alloc_counter - minted + length coinbase.live_outputs in
      let (dev, d_eq, e8) =
        bind-eq (development_infos chain stream pages txids payouts start) _ r e7 in
      let (users, u_eq, e9) =
        bind-eq (group_infos chain pages stream 0 dev.1 stream.groups) _ r e8 in
      let (counted, e10) = ensure-eq (users.1 == block.alloc_counter) _ r e9 in
      (
        start,
        whole-IsRun start dev.1 users.1 block.alloc_counter dev.0 users.0 _ r _
            (development_infos-IsRun stream pages txids payouts start dev.0 dev.1 d_eq)
            (group_infos-IsRun pages stream 0 dev.1 stream.groups users.0 users.1 u_eq) counted refl
            e10,
      )

  -- A body that is decoded from bytes is that of the block the bytes are bound to, and the creation
  -- ids of its outputs after the coinbase count up by one, in the order of the transactions, up to
  -- the header's allocation counter.
  pub decode_retained_block-IsRun :
      (bytes : List ℕ) (height : ℕ) (hash : String) (r : RetainedBlockInfo)
      → decode_retained_block chain bytes height hash ≡ ok r
      → (block : Block) × (decode_bound_block chain bytes height hash ≡ ok block)
        × (start : ℕ) × IsRun start (creation_ids (drop r.transactions 1)) block.alloc_counter
  unfolding decode_retained_block
  decode_retained_block-IsRun bytes height hash r e =
      let (above, e1) = ensure-eq (not (height == 0)) _ r e in
      let (block, bound, e2) = bind-eq (decode_bound_block chain bytes height hash) _ r e1 in
      let (start, run) = retained_of_block-IsRun block (length bytes) r e2 in
      (block, bound, start, run)

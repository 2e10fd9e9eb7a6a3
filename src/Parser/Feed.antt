-- ===== src/Parser/Feed.antt =====
-- A parser that takes one byte at a time: what `parse` has to compute, with no fuel and no chunks.
use my_web_socket.Prelude.{ℕ, none, some, List, [], ◌∷◌, ltb, ◌==◌, if◌then◌else◌}
use my_web_socket.Parser.{
  Status, fin_and_opcode, payload_len_and_mask, payload_len, mask_key, payload, complete, success,
  invalid_payload_len, WsFrame, WsParser, Outcome, returns, undefined, limit_payload_len, rejected,
  read_fin_and_opcode, read_payload_len_and_mask, read_payload_len, read_mask_key, store, finish,
  after_store,
}

-- After one byte: go on, or stop with the value of `parse`.
pub data Fed (S : Type 0) : Type 0 where
  go_on : WsParser S → Fed S
  halt : Outcome S → Fed S

module _ {S : Type 0} where
  abbrev pub continue : Fed S → (WsParser S → Outcome S) → Outcome S
  continue (go_on p) k = k p
  continue (halt r) k = r

  module _ (on_complete : WsFrame → S → S) where
    -- A frame whose payload is empty is finished by the next frame's first byte.
    unfoldable pub feed_payload : WsParser S → ℕ → Fed S
    feed_payload p b =
        if ltb limit_payload_len p.frame.payload_len
        then halt (returns invalid_payload_len (rejected p))
        else if p.byte_need == 0
        then go_on (read_fin_and_opcode (finish on_complete p) b)
        else elim (store p (b ∷ [])) [
          | none ↦ halt undefined
          | some q ↦ go_on (after_store on_complete q)
        ]

    unfoldable pub feed_at : Status → WsParser S → ℕ → Fed S
    feed_at fin_and_opcode p b = go_on (read_fin_and_opcode p b)
    feed_at payload_len_and_mask p b = go_on (read_payload_len_and_mask p b)
    feed_at payload_len p b = go_on (read_payload_len p b)
    feed_at mask_key p b = go_on (read_mask_key p b)
    feed_at payload p b = feed_payload p b
    feed_at complete p b = go_on (finish on_complete p)

    unfoldable pub feed : WsParser S → List ℕ → Outcome S
    feed p [] = returns success p
    feed p (b ∷ bs) = elim (feed_at p.status p b) [ go_on q ↦ feed q bs | halt r ↦ r ]

-- ===== src/Validate/Tests.antt =====
-- Examples of indexer/internal/validate.
use pulsar_app.Base.{
  ◌∷◌, ◌≡◌, ◌≢◌, refl, inl, inr, arith, codes, contains_byte, Str, All, length, pos, ok, err,
}
use pulsar_app.Validate.{
  err_ledger_range, event_limit, event_id, ledger_bound, event_cursor, ledger_range,
  event_filter_text, contract_id, valid_string,
}
use pulsar_app.Validate.Accepts.{
  event_limit_iff, event_id_iff, ledger_bound_iff, event_cursor_iff, ledger_range_iff,
}
use pulsar_app.Validate.Text.{IsUtf8, IsBase32, event_filter_text_iff, contract_id_iff}

event_limit_iff_example : event_limit (codes "20") ≡ ok (pos 20)
event_limit_iff_example = (event_limit_iff (codes "20") (pos 20)).1 (
    inr (
      (λ h. cc),
      ((omega arith, omega arith), ((omega arith, omega arith), tt)),
      omega arith,
      omega arith,
      refl,
    ))

event_id_iff_test : event_id (codes "7") ≡ ok (pos 7)
event_id_iff_test =
    (event_id_iff (codes "7") (pos 7)).1
      ((λ h. cc), ((omega arith, omega arith), tt), omega arith, refl)

ledger_bound_iff_test : ledger_bound (codes "") ≡ ok (pos 0)
ledger_bound_iff_test = (ledger_bound_iff (codes "") (pos 0)).1 (inl (refl, refl))

event_cursor_iff_test : event_cursor (codes "") ≡ ok (codes "")
event_cursor_iff_test = (event_cursor_iff (codes "") (codes "")).1 (refl, inl refl)

backwards_window : ledger_range (pos 9) (pos 4) ≡ err err_ledger_range
backwards_window = (ledger_range_iff (pos 9) (pos 4)).1 (omega arith, omega arith, omega arith)

event_filter_text_iff_test :
    (codes "a" ≡ codes "a") × IsUtf8 (codes "a") × All (λ c. c ≢ 0) (codes "a")
unfolding event_filter_text valid_string contains_byte
event_filter_text_iff_test = (event_filter_text_iff (codes "a") (codes "a")).0 refl

abbrev an_id : Str
an_id = codes "CAAAAAAAAAAAAAAAAAAAAAAAAAAAAAAAAAAAAAAAAAAAAAAAAAAAAAAA"

contract_id_iff_example :
    (length an_id ≡ 56) × ((rest : Str) × (an_id ≡ b'C' ∷ rest) × All IsBase32 rest)
unfolding contract_id
contract_id_iff_example = (contract_id_iff an_id).0 refl

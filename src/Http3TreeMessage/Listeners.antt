-- ===== src/Http3TreeMessage/Listeners.antt =====
-- The requests on listeners hold two names in one label.
use world_wide_anthropomorph.Base.{
  ℕ, ◌≤◌, ◌≡◌, refl, Bool, true, false, [], ◌∷◌, ◌++◌, arith, All, length, ltb, ok,
}
use world_wide_anthropomorph.Text.{Text}
use world_wide_anthropomorph.Stream.{
  last_number, scan_number, starts_digit, split_sign, digit_of, scan_digits, space, put_bool,
  read_bool, skip_space, get_byte,
}
use world_wide_anthropomorph.Stream.Words.{IsPlain, read_word-append}
use world_wide_anthropomorph.TreeMessage.{max_payload, encode_label, decode_label}
use world_wide_anthropomorph.Http3TreeMessage.{
  new_message, encode_request, decode_request, set_request_id,
}
use world_wide_anthropomorph.Http3TreeMessage.Requests.{
  read_field, encode_label_request, encode_register_node_listener_request,
  decode_register_node_listener_request,
}

-- A text without white space is read as a field, also where it is empty.
read_field-append :
    (w rest : Text) → All IsPlain w → read_field (w ++ space ∷ rest) ≡ ok (w, space ∷ rest)
unfolding read_field
read_field-append [] rest h = refl
read_field-append (c ∷ w) rest h =
    rw (read_field, h.0)
      (read_word-append (c ∷ w) (space ∷ rest) (record { filled = omega arith; plain = h }) refl)

read_bool-put_bool : (b : Bool) → read_bool (put_bool b) ≡ ok b
unfolding read_bool last_number scan_number skip_space starts_digit split_sign digit_of scan_digits
read_bool-put_bool true = refl
read_bool-put_bool false = refl

-- A registration whose names have no white space, of which both may be empty, and whose label fits
-- a chunk, is decoded from its message.
pub decode_register_node_listener_request-encode :
    (r id : ℕ) (listener_name label_rule : Text) (child_notify : Bool)
    → All IsPlain listener_name
    → All IsPlain label_rule
    → length (listener_name ++ (space ∷ (label_rule ++ (space ∷ put_bool child_notify))))
      ≤ max_payload
    → let sent =
        (encode_register_node_listener_request listener_name label_rule child_notify
          (new_message r)).0 in
      decode_register_node_listener_request (set_request_id id sent)
      ≡ ok (listener_name, label_rule, child_notify)
unfolding encode_register_node_listener_request decode_register_node_listener_request
    encode_label_request encode_request decode_request set_request_id new_message encode_label
    decode_label get_byte
decode_register_node_listener_request-encode r id name rule flag h h' short =
    let str : Text = name ++ (space ∷ (rule ++ (space ∷ put_bool flag))) in
    let fits : ltb max_payload (length str) ≡ false = ground (arith, short) in
    rw
      (
        fits,
        read_field-append name (rule ++ (space ∷ put_bool flag)) h,
        read_field-append rule (put_bool flag) h',
        read_bool-put_bool flag,
      )
      refl

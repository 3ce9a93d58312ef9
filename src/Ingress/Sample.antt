-- ===== src/Ingress/Sample.antt =====
-- A document that Telegram sends from a private chat.
use vennek.Prelude.{
  ◌≡◌, refl, Bool, true, none, some, Text, codes, same, trim, trim_end, trim_start, is_space,
  includes, starts_with,
}
use vennek.Value.{
  Value, last, member, object, string, number, int, pos, own, has_own, read, read_of, positive_safe,
}
use vennek.Value.Decimal.{decimal, is_canonical, all_digits, is_digit, value_from}
use vennek.Unicode.{
  is_high, is_low, byte_length, bytes_of, point_bytes, code_points, any_control, is_control,
  is_format,
}
use vennek.Metadata.Bounded.{bounded_text, bounded_file_name, bounded_mime, is_blank, scan}
use vennek.Metadata.Validate.{
  validate_private_comparison_metadata, optional_data_record, fields_of, caption_ok, identifier_ok,
  all_listed, listed,
}
use vennek.Ingress.Update.{
  PrivateJob, private_compare, canonical_private_telegram_identifier, has_any, parse_document,
  parse_private_comparison_job, canonicalize_message, canonicalize_telegram_update,
}

abbrev pub finds_seed : Text → Bool
finds_seed s = includes s (codes "seed")

abbrev pub document_update : Value
document_update = object (
    member "update_id" (number (int (pos 7))) (
      member "message"
        (object (
          member "from" (object (member "id" (number (int (pos 42))) last)) (
            member "chat"
              (object (
                member "id" (number (int (pos 42)))
                  (member "type" (string (codes "private")) last)))
              (member "caption" (string (codes "a b")) (
                member "document"
                  (object (
                    member "file_id" (string (codes "f")) (
                      member "file_unique_id" (string (codes "u"))
                        (member "file_size" (number (int (pos 9))) last))))
                  last)))))
        last))

abbrev pub sample_job : PrivateJob
sample_job = record {
  update_id = 7;
  telegram_user_id = codes "42";
  telegram_chat_id = codes "42";
  metadata = record {
    caption = codes "a b";
    file_id = codes "f";
    file_unique_id = codes "u";
    file_name = none;
    mime = none;
    file_size = some 9;
  };
}

pub canonicalize-sample :
    canonicalize_telegram_update finds_seed document_update true ≡ private_compare sample_job
unfolding canonicalize_telegram_update canonicalize_message parse_private_comparison_job
    parse_document has_any canonical_private_telegram_identifier own has_own read read_of
    positive_safe decimal same validate_private_comparison_metadata optional_data_record fields_of
    caption_ok identifier_ok bounded_text bounded_file_name bounded_mime is_blank scan is_high
    is_low byte_length bytes_of point_bytes code_points any_control is_control is_format all_listed
    listed trim trim_end trim_start is_space includes starts_with is_canonical all_digits is_digit
    value_from
canonicalize-sample = refl

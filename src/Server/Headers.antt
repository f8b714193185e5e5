-- ===== src/Server/Headers.antt =====
-- The header of a request, as client/ServerRequest.cpp writes it and RequestParserFactory
-- (server/request_parser.py) reads it.
use instant_messaging_progra.Base.{
  ◌^◌, ◌<◌, ◌≡◌, refl, sym, ap, ◌∙◌, [], ◌∷◌, ◌++◌, Bytes, length, take, drop, false, some, ok,
  length-append, take-append, drop-append, append_assoc, is_empty, arith,
}
use instant_messaging_progra.Codec.Number.{le_bytes, length-le_bytes}
use instant_messaging_progra.ServerRequest.{
  RequestCode, register_code, list_clients_code, get_public_key_code, send_message_code,
  pull_messages_code, request_code, Header,
}
use instant_messaging_progra.ServerRequest.Format.{header_bytes, length-header_bytes}
use instant_messaging_progra.Server.Struct.{
  le_value, le_value-le_bytes, unpack_from-append, uuid-sixteen,
}
use instant_messaging_progra.Server.Requests.{
  ParserClass, register_parser, list_clients_parser, get_public_key_parser, send_message_parser,
  pull_messages_parser, RequestParser, parse_header, parser_class_of, get_request_parser,
}

pub is_empty-long : (bs : Bytes) → 0 < length bs → is_empty bs ≡ false
unfolding is_empty
is_empty-long [] h = absurd (omega arith)
is_empty-long (b ∷ bs) h = refl

abbrev pub class_for : RequestCode → ParserClass
class_for register_code = register_parser
class_for list_clients_code = list_clients_parser
class_for get_public_key_code = get_public_key_parser
class_for send_message_code = send_message_parser
class_for pull_messages_code = pull_messages_parser

parser_class_of-request_code :
    (op : RequestCode) → parser_class_of (request_code op) ≡ some (class_for op)
unfolding parser_class_of
parser_class_of-request_code register_code = refl
parser_class_of-request_code list_clients_code = refl
parser_class_of-request_code get_public_key_code = refl
parser_class_of-request_code send_message_code = refl
parser_class_of-request_code pull_messages_code = refl

code_bound : (op : RequestCode) → request_code op < 256 ^ 2
code_bound register_code = omega arith
code_bound list_clients_code = omega arith
code_bound get_public_key_code = omega arith
code_bound send_message_code = omega arith
code_bound pull_messages_code = omega arith

-- The parser that belongs to a header.
abbrev pub parser_of : Bytes → Header → RequestParser
parser_of sender h = record {
  parser_class = class_for h.op;
  client_id = sender;
  client_version = h.version;
  payload_size = h.payload_size;
}

abbrev fields : Header → Bytes
fields h = le_bytes 1 h.version ++ (le_bytes 2 (request_code h.op) ++ le_bytes 4 h.payload_size)

module _ (sender post : Bytes) (h : Header) where
  -- The header is the id and the fields behind it.
  header_bytes-fields : header_bytes sender h ++ post ≡ sender ++ (fields h ++ post)
  unfolding header_bytes
  header_bytes-fields = simp (append_assoc)

  fields_version : le_value (take 1 (fields h)) ≡ le_value (le_bytes 1 h.version)
  fields_version =
      ap le_value (take-append 1 (le_bytes 1 h.version) _ (length-le_bytes 1 h.version))

  fields_code : le_value (take 2 (drop 1 (fields h))) ≡ le_value (le_bytes 2 (request_code h.op))
  fields_code =
      ap (λ z. le_value (take 2 z))
        (drop-append 1 (le_bytes 1 h.version) _ (length-le_bytes 1 h.version))
      ∙ ap le_value
          (take-append 2 (le_bytes 2 (request_code h.op)) _ (length-le_bytes 2 (request_code h.op)))

  fields_size : le_value (drop 3 (fields h)) ≡ le_value (le_bytes 4 h.payload_size)
  fields_size =
      ap (λ z. le_value (drop 3 z))
        (sym (append_assoc (le_bytes 1 h.version) (le_bytes 2 (request_code h.op)) _))
      ∙ ap le_value (
          drop-append 3 (le_bytes 1 h.version ++ le_bytes 2 (request_code h.op)) _
            (omega (arith, length-append {0}, length-le_bytes)))

  parse_header-header_bytes :
      length sender ≡ 16
      → h.version < 256
      → h.payload_size < 2 ^ 32
      → parse_header (header_bytes sender h ++ post)
        ≡ ok (sender, h.version, request_code h.op, h.payload_size)
  unfolding parse_header
  parse_header-header_bytes e hv hs =
      rw
        (
          header_bytes-fields,
          unpack_from-append 16 [] sender (fields h ++ post) 0 refl (omega arith),
          uuid-sixteen sender e,
          unpack_from-append 7 sender (fields h) post 16 (omega arith)
              (omega (arith, length-append {0}, length-le_bytes)),
          fields_version,
          fields_code,
          fields_size,
          le_value-le_bytes 1 h.version (omega arith),
          le_value-le_bytes 2 (request_code h.op) (code_bound h.op),
          le_value-le_bytes 4 h.payload_size (omega arith),
        )
        refl

  pub get_request_parser-header_bytes :
      length sender ≡ 16
      → h.version < 256
      → h.payload_size < 2 ^ 32
      → get_request_parser (header_bytes sender h ++ post) ≡ ok (parser_of sender h)
  unfolding get_request_parser
  get_request_parser-header_bytes e hv hs =
      rw
        (
          is_empty-long (header_bytes sender h ++ post)
              (omega (arith, length-append {0}, length-header_bytes h sender e)),
          parse_header-header_bytes e hv hs,
          parser_class_of-request_code h.op,
        )
        refl

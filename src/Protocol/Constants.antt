-- ===== src/Protocol/Constants.antt =====
-- src/titlani/protocol/constants.py
use titlani.Base.{ℕ, [], ◌∷◌}
use titlani.Str.Core.{Text, Bytes, codes}

abbrev pub default_port : ℕ
default_port = 1958

abbrev pub max_header_size : ℕ
max_header_size = 1024

abbrev pub max_content_length : ℕ
max_content_length = 16384

abbrev pub max_metadata_line_size : ℕ
max_metadata_line_size = 1024

abbrev pub max_response_size : ℕ
max_response_size = 2048

abbrev pub max_b_request_size : ℕ
max_b_request_size = 2048

abbrev pub crlf : Bytes
crlf = b'\r' ∷ b'\n' ∷ []

abbrev pub misfin_scheme : Text
misfin_scheme = codes "misfin"

-- `f"{MISFIN_SCHEME}://"`
abbrev pub prefix : Text
prefix = codes "misfin://"

abbrev pub max_redirects : ℕ
max_redirects = 5

-- ===== src/Gmap/Routes.antt =====
-- `GmapHandler` of src/titlani/gmap/handler.py: the client's authentication and the routes.
pub mod Lists
pub mod Private
use titlani.Base.{
  ℕ, Bool, true, false, ◌&&◌, ◌||◌, not, List, [], ◌∷◌, ◌++◌, ◌==◌, Option, none, some,
  if◌then◌else◌, Result, ok, err, ◌>>=◌, or_raise, is_some,
}
use titlani.Str.Core.{
  Text, Bytes, codes, same, has, contains, after_prefix, before_suffix, starts_with,
}
use titlani.Str.Strip.{strip}
use titlani.Str.Split.{split_once, split_crlf, join}
use titlani.Str.Utf8.{encode, decode}
use titlani.Str.Number.{digit_value, decimal}
use titlani.Runtime.{Runtime}
use titlani.Identity.{extract_identity, normalize_fingerprint}
use titlani.Content.Time
use titlani.Content.Time.{Parsed, parsed, replace_z}
use titlani.Content.MessageId.{skip_digits}
use titlani.Server.Lists.{is_name, is_mailing_list}
use titlani.Server.State.{lookup, insert}
use titlani.Gmap.Mailbox.{
  MessageEntry, GmapMailbox, GeminiResponse, reply, text_reply, list_by_tag, handle_msgid,
  handle_tag_list_all, handle_add_tag, handle_remove_tag, handle_delete, Raised,
}
use titlani.Gmap.Index.{IndexFile, load, save, sync_filesystem}
use titlani.Gmap.Routes.Lists.{Directory, route_list}
use titlani.Gmap.Request.{
  GeminiRequest, RequestError, invalid_utf8, not_gemini, host_and_path, without_port,
  path_and_query, parse_gemini_request, is_path, as_name, name_behind, before_end, one_line,
  msgid_of, is_iso_stamp, tag_since,
}

-- The constructor's parameters, with what the file system answers for the path of a mailbox.
pub record GmapHandler : Type 0 where
  pub hostname : Text
  pub resolved_dir : Text
  pub resolve : Text → Option Text
  pub recipient_fps : List (Text × Text)

-- What a request on a mailbox does: its response, and the index where it is saved.
abbrev pub Handled : Type 0
Handled = GeminiResponse × Option GmapMailbox

-- `mbox.save()` is called where the change succeeded
unfoldable pub saving : GeminiResponse × GmapMailbox → Handled
saving (r, m) = (r, if r.status == 20 then some m else none)

-- The index as it is on disk, and the index in memory
unfoldable pub saved : Option GmapMailbox → Directory → Directory
saved none d = d
saved (some m) d = record d { index = save m; files = m.files }

-- The mailbox's name passes the test.
unfoldable pub is_plain_name : Text → Bool
is_plain_name mailbox =
    not (same mailbox [])
    && not (has 0 mailbox)
    && not (has b'/' mailbox)
    && not (has b'\\' mailbox)
    && not (contains (codes "..") mailbox)
    && is_name mailbox

unfoldable pub lies_inside : GmapHandler → Text → Bool
lies_inside h mailbox = elim (h.resolve mailbox) [
  | none ↦ false
  | some resolved ↦ starts_with (h.resolved_dir ++ codes "/") resolved
]

module _ (rt : Runtime) (is_before : rt.dt.Time → rt.dt.Time → Bool) where
  open rt use {dt, Cert, certificate_fingerprint}

  -- `msg_time is not None and msg_time < since`; a timestamp of the index ends in `Z`
  unfoldable pub is_old : dt.Time → Text → Bool
  is_old since [] = false
  is_old since (c ∷ t) = elim (dt.from_iso (replace_z (c ∷ t))) [
    | parsed time ↦ is_before time since
    | Time.invalid ↦ false
    | Time.out_of_range ↦ false
  ]

  listing : List Text → GeminiResponse
  listing msgids = text_reply (encode (join (codes ", ") msgids))

  -- `_handle_tag_list`
  unfoldable pub handle_tag_list : Text → GmapMailbox → Option Text → GeminiResponse
  unfolding is_old listing
  handle_tag_list tag m none = listing (list_by_tag m tag none)
  handle_tag_list tag m (some since_str) = elim (dt.from_iso (replace_z since_str)) [
    | parsed since ↦ listing (list_by_tag m tag (some (is_old since)))
    | Time.invalid ↦ reply 59 (codes "Invalid timestamp")
    | Time.out_of_range ↦ reply 59 (codes "Invalid timestamp")
  ]

  -- the route `/tag/<name>`
  unfoldable pub tag_named : Text → Option Text → GmapMailbox → Handled
  unfolding handle_tag_list saving
  tag_named tag (some msgid) m = saving (handle_add_tag tag msgid m)
  tag_named tag none m = (handle_tag_list tag m none, none)

  -- `_route_tag`
  unfoldable pub route_tag : Text → Option Text → GmapMailbox → Handled
  unfolding tag_named
  route_tag path query m =
      if is_path (codes "/tag/") path
      then (
        if is_some query then reply 59 (codes "No query expected") else handle_tag_list_all m,
        none,
      )
      else elim (tag_since path) [
        | some (tag, since_str) ↦ (handle_tag_list tag m (some since_str), none)
        | none ↦ elim (name_behind (codes "/tag/") path) [
          | some tag ↦ tag_named tag query m
          | none ↦ (reply 51 (codes "Unknown tag route"), none)
        ]
      ]

  -- a request that needs a message id
  unfoldable pub with_msgid : Option Text → (Text → Result Raised Handled) → Result Raised Handled
  with_msgid none act = ok (reply 59 (codes "Message ID required"), none)
  with_msgid (some msgid) act = act msgid

  -- `_route`
  unfoldable pub route : Text → Option Text → GmapMailbox → Result Raised Handled
  unfolding route_tag with_msgid
  route path query m = elim (msgid_of path) [
    | some msgid ↦ handle_msgid msgid m >>= λ response. ok (response, none)
    | none ↦
        if starts_with (codes "/tag/") path
        then ok (route_tag path query m)
        else elim (name_behind (codes "/untag/") path) [
          | some tag ↦ with_msgid query (λ msgid. ok (saving (handle_remove_tag tag msgid m)))
          | none ↦
              if is_path (codes "/delete") path
              then with_msgid query (λ msgid. handle_delete msgid m >>= λ done. ok (saving done))
              else ok (reply 51 (codes "Unknown route"), none)
        ]
  ]

  -- `_verify_fingerprint`
  expected_fingerprint : Cert → Option Text → Option GeminiResponse
  expected_fingerprint cert none = some (reply 61 (codes "No registered identity for mailbox"))
  expected_fingerprint cert (some expected_fp) =
      if not (same (normalize_fingerprint rt (certificate_fingerprint cert)) expected_fp)
      then some (reply 61 (codes "Certificate fingerprint mismatch"))
      else none

  unfoldable pub verify_fingerprint : List (Text × Text) → Text → Cert → Option GeminiResponse
  unfolding expected_fingerprint
  verify_fingerprint [] mailbox cert = none
  verify_fingerprint (p ∷ fps) mailbox cert = expected_fingerprint cert (lookup mailbox (p ∷ fps))

  -- `_authenticate` behind the test for a certificate: the mailbox's name and directory
  unfoldable pub authenticate_cert :
      GmapHandler → List (Text × Directory) → Cert → Result GeminiResponse (Text × Directory)
  unfolding verify_fingerprint
  authenticate_cert h dirs cert =
      let identity = extract_identity rt cert in
      if same identity.mailbox [] || same identity.hostname []
      then err (reply 61 (codes "Certificate missing identity"))
      else if not (is_plain_name identity.mailbox)
      then err (reply 61 (codes "Invalid mailbox name"))
      else elim (verify_fingerprint h.recipient_fps identity.mailbox cert) [
        | some r ↦ err r
        | none ↦
            if not (lies_inside h identity.mailbox)
            then err (reply 61 (codes "Invalid mailbox"))
            else elim (lookup identity.mailbox dirs) [
              | none ↦ err (reply 51 (codes "Mailbox not found"))
              | some d ↦ ok (identity.mailbox, d)
            ]
      ]

  -- `_authenticate`
  unfoldable pub authenticate :
      GmapHandler → List (Text × Directory) → Option Cert → Result GeminiResponse (Text × Directory)
  unfolding authenticate_cert
  authenticate h dirs none = err (reply 60 (codes "Client certificate required"))
  authenticate h dirs (some cert) = authenticate_cert h dirs cert

  -- what a route did, on disk
  unfoldable pub finish :
      Directory → Result Raised Handled → Result Raised GeminiResponse × Directory
  unfolding saved
  finish d (err e) = (err e, d)
  finish d (ok (response, change)) = (ok response, saved change d)

  -- the request on its mailbox, whose index was loaded: synchronised and saved if that changed it,
  -- and routed
  unfoldable pub serve_loaded :
      GeminiRequest Cert
      → Directory
      → Result Raised (List (Text × MessageEntry))
      → Result Raised GeminiResponse × Directory
  unfolding route finish saved
  serve_loaded r d (err e) = (err e, d)
  serve_loaded r d (ok messages) =
      let (modified, m) =
        sync_filesystem rt (is_mailing_list d.subscribers)
          (record { messages = messages; files = d.files }) in
      finish (saved (if modified then some m else none) d) (route r.path r.query m)

  unfoldable pub serve : GeminiRequest Cert → Directory → Result Raised GeminiResponse × Directory
  unfolding serve_loaded
  serve r d = serve_loaded r d (load d.index)

  -- `handle_request` behind the authentication
  unfoldable pub answer :
      GeminiRequest Cert
      → List (Text × Directory)
      → Result GeminiResponse (Text × Directory)
      → Result Raised GeminiResponse × List (Text × Directory)
  unfolding serve
  answer r dirs (err response) = (ok response, dirs)
  answer r dirs (ok (mailbox, d)) =
      let (response, d') = serve r d in (response, insert mailbox d' dirs)

  -- `handle_request`; the protocol answers an exception with 40
  unfoldable pub handle_request :
      GmapHandler
      → GeminiRequest Cert
      → List (Text × Directory)
      → Result Raised GeminiResponse × List (Text × Directory)
  unfolding authenticate answer
  handle_request h r dirs =
      if starts_with (codes "/list/") r.path
      then (ok (route_list rt h.hostname r.path dirs), dirs)
      else answer r dirs (authenticate h dirs r.client_cert)

-- ===== src/Tests/Routes.antt =====
-- The index of a mailbox and the routes of GMAP at concrete inputs.
use titlani.Base.{
  true, false, List, [], ◌∷◌, ◌++◌, none, some, ok, Result, ◌≡◌, refl, ◌⊎◌, ltb, length, ◌≤◌, arith,
}
use titlani.Str.Core.{Text, Bytes, codes, starts_with}
use titlani.Str.Number.{digit_in, digit_value}
use titlani.Content.MessageId.{
  skip_digits, skip_stamp, is_id_end, is_message_id, without_suffix, parse_message_id_from_filename,
  word, link_here, link_length, find_links, extract_reply_to_ids, build_reply_link,
}
use titlani.Content.MessageId.Links.{extract_reply_to_ids-build_reply_link}
use titlani.Str.Strip.{is_space, NoSpace}
use titlani.Server.Lists.{contents}
use titlani.Server.State.{lookup}
use titlani.Gmap.Mailbox.{
  MessageEntry, GmapMailbox, GeminiResponse, Raised, text_reply, has_message, is_trashed, ids_where,
  list_all_msgids, handle_tag_list_all, with_tag, add_tag, handle_add_tag, valid_tag,
}
use titlani.Gmap.Index.{
  index, load, save, before, insert_sorted, sorted, file_exists, filenames, keep_existing,
  any_stale, parse_timestamp_from_msgid, new_entry, visit, visit_matching, visit_files,
  visit_patterns, sync_filesystem,
}
use titlani.Gmap.Index.Has.{Has}
use titlani.Gmap.Index.Sync.{sync_filesystem-Has}
use titlani.Gmap.Routes.Lists.{Directory}
use titlani.Gmap.Request.{
  GeminiRequest, host_and_path, without_port, path_and_query, parse_gemini_request, is_path,
  as_name, name_behind, before_end, one_line, msgid_of, is_iso_stamp, tag_since,
}
use titlani.Gmap.Routes.{
  GmapHandler, saving, saved, is_plain_name, lies_inside, is_old, handle_tag_list, tag_named,
  route_tag, with_msgid, route, verify_fingerprint, authenticate_cert, authenticate, serve, answer,
  handle_request, serve_loaded, finish,
}
use titlani.Gmap.Routes.Private.{IsFailure, IsServed, handle_request-IsServed}
use titlani.Str.Split.{split_crlf}
use titlani.Gmap.Connection.{
  Peer, awaitable, max_gemini_request_size, connection_made, process_request, take_line,
  take_buffer, data_received,
}
use titlani.Gmap.Connection.Chunks.{joined, receive_all, waiting, receive_all-take_line}
use titlani.Tests.Machine.{handlers, machine}

unfoldable routes : Unit {0}
unfolding handlers digit_in digit_value skip_digits skip_stamp is_id_end is_message_id
    without_suffix parse_message_id_from_filename has_message is_trashed ids_where list_all_msgids
    handle_tag_list_all with_tag add_tag handle_add_tag valid_tag load save before insert_sorted
    sorted file_exists filenames keep_existing any_stale parse_timestamp_from_msgid new_entry visit
    visit_matching visit_files visit_patterns sync_filesystem host_and_path without_port
    path_and_query parse_gemini_request is_path as_name name_behind before_end one_line msgid_of
    is_iso_stamp tag_since saving saved is_plain_name lies_inside is_old handle_tag_list tag_named
    route_tag with_msgid route verify_fingerprint authenticate_cert authenticate serve answer
    handle_request
routes = tt

abbrev stamp : Text
stamp = codes "20260211T143052Z-a1b2"

ids_read :
    (parse_message_id_from_filename (stamp ++ codes ".gemmail.enc.new") ≡ some stamp)
    × (parse_message_id_from_filename (codes "20260211T143052Z.gemmail")
        ≡ some (codes "20260211T143052Z"))
    × (parse_message_id_from_filename (codes "note.gemmail") ≡ none)
unfolding routes
ids_read = (refl, refl, refl)

abbrev entry : MessageEntry
entry = record {
  tags = codes "Work" ∷ [];
  timestamp = [];
  filename = codes "20250101T000000Z.gemmail";
}

abbrev old_id : Text
old_id = codes "20250101T000000Z"

-- a message that is indexed, and a file that is new
abbrev box : GmapMailbox
box = record {
  messages = (old_id, entry) ∷ [];
  files =
      (stamp ++ codes ".gemmail.new", codes "x")
      ∷ (codes "20250101T000000Z.gemmail", codes "y")
      ∷ [];
}

old-found : lookup old_id box.messages ≡ some entry
unfolding routes
old-found = refl

old-there : file_exists box entry.filename ≡ true
unfolding routes
old-there = refl

sync_filesystem-Has_example :
    Has box old_id (λ i. i.tags ≡ entry.tags) (sync_filesystem machine false box).1.messages
sync_filesystem-Has_example = sync_filesystem-Has machine false box old_id entry old-found old-there

abbrev new_name : Text
new_name = stamp ++ codes ".gemmail.new"

abbrev handler : GmapHandler
handler = record {
  hostname = codes "h";
  resolved_dir = codes "/d";
  resolve = λ m. some (codes "/d/" ++ m);
  recipient_fps = (codes "a", codes "a") ∷ [];
}

abbrev dirs : List (Text × Directory)
dirs =
    (codes "a", record { index = index box.messages; files = box.files; subscribers = contents [] })
    ∷ (codes "b", record { index = index []; files = []; subscribers = contents [] })
    ∷ []

abbrev request : GeminiRequest (Text × Text × Text)
request = record {
  url = codes "gemini://h/tag/Done?20250101T000000Z";
  hostname = codes "h";
  path = codes "/tag/Done";
  query = some old_id;
  client_cert = some (codes "a", codes "h", codes "n");
}

request-parsed :
    parse_gemini_request
      (codes "gemini://h:1958/tag/Done?20250101T000000Z")
      (some (codes "a", codes "h", codes "n"))
    ≡ ok (record request { url = codes "gemini://h:1958/tag/Done?20250101T000000Z" })
unfolding routes
request-parsed = refl

abbrev done : Result Raised GeminiResponse × List (Text × Directory)
done = handle_request machine ltb handler request dirs

tagged : done.0 ≡ ok (text_reply (codes "Tag added"))
unfolding routes serve_loaded finish
tagged = refl

is_private : starts_with (codes "/list/") request.path ≡ false
unfolding routes
is_private = refl

handle_request-IsServed_example :
    ((done.1 ≡ dirs) × IsFailure machine ltb handler dirs done.0)
    ⊎ IsServed machine ltb handler dirs request done.1
handle_request-IsServed_example =
    handle_request-IsServed machine ltb handler dirs request is_private refl

ab-NoSpace : NoSpace (codes "ab")
unfolding is_space
ab-NoSpace = (refl, (refl, tt))

extract_reply_to_ids-build_reply_link_example :
    extract_reply_to_ids (build_reply_link (codes "ab") ++ b'\n' ∷ codes "=> mid:cd x\n")
    ≡ codes "ab" ∷ extract_reply_to_ids (codes "=> mid:cd x\n")
extract_reply_to_ids-build_reply_link_example =
    extract_reply_to_ids-build_reply_link (codes "ab") (codes "=> mid:cd x\n") (λ q. cc q)
      ab-NoSpace

links-read :
    extract_reply_to_ids (codes "hi\n=> mid:ab In reply to\n=>  mid:cd\n => mid:ef\n")
    ≡ codes "ab" ∷ codes "cd" ∷ []
unfolding routes word link_here link_length find_links extract_reply_to_ids
links-read = refl

abbrev visitor : Peer (Text × Text × Text)
visitor = record {
  request_handler = λ r. awaitable;
  loop_running = true;
  certificate = none;
  error_text = λ e. codes "bad";
}

abbrev cut : List Bytes
cut = codes "gemini://h/ta" ∷ codes "g/\r" ∷ codes "\n" ∷ []

cut-line : split_crlf (joined cut) ≡ some (codes "gemini://h/tag/", [])
unfolding routes joined
cut-line = refl

cut-small : length (joined cut) ≤ max_gemini_request_size
unfolding joined
cut-small = omega arith

receive_all-take_line_example :
    receive_all visitor cut (connection_made visitor)
    ≡ take_line visitor (codes "gemini://h/tag/") (waiting visitor (joined cut))
receive_all-take_line_example =
    receive_all-take_line visitor cut (codes "gemini://h/tag/")
      ((λ q. cc q), ((λ q. cc q), ((λ q. cc q), tt))) cut-line cut-small

-- The request is handed on once more with each further piece.
cut-again :
    length
      (receive_all visitor (cut ++ (codes "x" ∷ codes "y" ∷ [])) (connection_made visitor)).tasks
    ≡ 3
unfolding routes connection_made process_request take_line take_buffer data_received receive_all
cut-again = refl

-- ===== src/Content/MessageId/Links.antt =====
-- The links of replies in src/titlani/content/message_id.py.
use titlani.Base.{
  ℕ, zero, suc, ◌-◌, ◌+◌, ◌≤◌, true, false, [], ◌∷◌, ◌++◌, ◌==◌, some, length, length-append, ◌≡◌,
  ◌≢◌, refl, ap, ◌∙◌, append_assoc, All-append, arith, Lacks,
}
use titlani.Str.Core.{Text, codes, has, has-false, after_prefix}
use titlani.Str.Strip.{is_space, drop_while, NoSpace}
use titlani.Content.MessageId.{
  word, or_no_match, link_here, link_length, find_links, extract_reply_to_ids, build_reply_link,
}

word-append : (id rest : Text) → NoSpace id → word (id ++ b' ' ∷ rest) ≡ id
unfolding word is_space
word-append [] rest h = refl
word-append (c ∷ id) rest (hc, h) = ground (arith, hc, word-append id rest h)

-- A match that ends in its line leaves the lines that follow.
find_links_line :
    (left : ℕ) (line body : Text)
    → left ≤ length line
    → Lacks b'\n' line
    → find_links false left (line ++ b'\n' ∷ body) ≡ find_links true zero body
unfolding find_links
find_links_line zero [] body h k = refl
find_links_line (suc left) [] body h k = absurd (omega (arith, h))
find_links_line zero (c ∷ line) body h (hc, k) =
    let e : (c == b'\n') ≡ false = ground arith in
    ap (λ b. find_links b zero (line ++ b'\n' ∷ body)) e
    ∙ find_links_line zero line body (omega arith) k
find_links_line (suc left) (c ∷ line) body h (hc, k) =
    let e : (c == b'\n') ≡ false = ground arith in
    ap (λ b. find_links b left (line ++ b'\n' ∷ body)) e
    ∙ find_links_line left line body (omega (arith, h)) k

link_here-append :
    (id rest : Text)
    → id ≢ []
    → NoSpace id
    → link_here (codes "=> mid:" ++ (id ++ b' ' ∷ rest)) ≡ some id
unfolding link_here drop_while is_space after_prefix
link_here-append [] rest n h = absurd (n refl)
link_here-append (c ∷ id) rest n h = ap or_no_match (word-append (c ∷ id) rest h)

find_links-some :
    (c : ℕ) (t : Text) {id : Text}
    → link_here (c ∷ t) ≡ some id
    → find_links true zero (c ∷ t) ≡ id ∷ find_links (c == b'\n') (link_length (c ∷ t) id - 1) t
unfolding find_links
find_links-some c t e = rw (find_links, e)

link_length-append : (id rest : Text) → link_length (codes "=> mid:" ++ rest) id ≡ 7 + length id
unfolding link_length drop_while is_space after_prefix
link_length-append id rest = omega arith

NoSpace-Lacks : (id : Text) → NoSpace id → Lacks b'\n' id
unfolding is_space
NoSpace-Lacks [] h = tt
NoSpace-Lacks (c ∷ id) (hc, h) = ((λ q. ground (arith, hc, q)), NoSpace-Lacks id h)

-- A reply's text that begins with the link to a message is read with that message first, and then as
-- the text behind the link.
pub extract_reply_to_ids-build_reply_link :
    (id body : Text)
    → id ≢ []
    → NoSpace id
    → extract_reply_to_ids (build_reply_link id ++ b'\n' ∷ body) ≡ id ∷ extract_reply_to_ids body
unfolding extract_reply_to_ids build_reply_link has
extract_reply_to_ids-build_reply_link id body n h =
    let tail = codes " In reply to" in
    let line = codes "> mid:" ++ (id ++ tail) in
    let whole = b'=' ∷ (line ++ b'\n' ∷ body) in
    let linked : link_here whole ≡ some id =
      rw (append_assoc id tail (b'\n' ∷ body))
        (link_here-append id (codes "In reply to" ++ b'\n' ∷ body) n h) in
    let size : link_length whole id - 1 ≡ 6 + length id =
      omega (arith, link_length-append id ((id ++ tail) ++ b'\n' ∷ body)) in
    let short : 6 + length id ≤ length line = omega (arith, length-append id tail) in
    let behind : Lacks b'\n' (id ++ tail) =
      All-append (λ c. c ≢ b'\n') id tail (NoSpace-Lacks id h) (has-false b'\n' tail refl) in
    let clean : Lacks b'\n' line =
      All-append (λ c. c ≢ b'\n') (codes "> mid:") (id ++ tail)
        (has-false b'\n' (codes "> mid:") refl) behind in
    find_links-some b'=' (line ++ b'\n' ∷ body) linked
    ∙ (ap (λ k. id ∷ find_links false k (line ++ b'\n' ∷ body)) size
        ∙ ap (λ found. id ∷ found) (find_links_line (6 + length id) line body short clean))

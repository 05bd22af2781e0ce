-- ===== src/Proxy/DnsReply.antt =====
-- That the DNS client of services/aimili-egress/proxy_server.py reads the answer to its own question.
use aimili_gateway.Prelude.{
  ℕ, ◌+◌, ◌*◌, ◌%◌, ◌≤◌, ◌<◌, All, Text, ◌≡◌, ◌≢◌, List, refl, ap, ◌∙◌, subst, ◌⊎◌, true, false,
  Option, none, some, [], ◌∷◌, ◌++◌, take, length, length-append, append_assoc, arith, ltb, text_eq,
  text_eq_refl,
}
use Prim.Native.Nat.{zero, suc}
use aimili_gateway.Proxy.Dns.{
  Bytes, drop, byte_at, word_at, split_from, qname, packet, query, skip_name, is_asked,
  read_answers, read_reply,
}
use aimili_gateway.Proxy.DnsName.{
  IsName, HasBytes, qname-IsName, NameForm, form-IsName, form-not_empty, drop-append,
}

-- The types that are asked for, with the size of an address.
abbrev pub IsSize : ℕ → ℕ → Type 0
IsSize qtype size = ((qtype ≡ 1) × (size ≡ 4)) ⊎ ((qtype ≡ 28) × (size ≡ 16))

-- The numbers of a reply that the client does not fix.
pub record Header : Type 0 where
  pub flags_high : ℕ
  pub flags_low : ℕ
  pub questions : ℕ × ℕ
  pub answers : ℕ × ℕ
  pub authorities : ℕ × ℕ
  pub additional : ℕ × ℕ

-- An answer: a name, a type, a class, a time to live, a size, and the content.
pub record Answer : Type 0 where
  pub owner : Bytes
  pub kind : ℕ × ℕ
  pub class_ : ℕ × ℕ
  pub ttl : (ℕ × ℕ) × (ℕ × ℕ)
  pub size : ℕ × ℕ
  pub content : Bytes

-- Two bytes as a number.
abbrev pub word : ℕ × ℕ → ℕ
word w = w.0 * 256 + w.1

pub record IsAnswer (r : Answer) : Type 0 where
  pub named : NameForm r.owner
  pub sized : length r.content ≡ word r.size

-- An answer that is no address of the type that is asked for, and one that is.
abbrev pub IsOther : ℕ → Answer → Type 0
IsOther qtype r = (word r.kind ≢ qtype) ⊎ (word r.class_ ≢ 1)

abbrev pub IsAddress : ℕ → Answer → Type 0
IsAddress qtype r = (word r.kind ≡ qtype) × (word r.class_ ≡ 1) × IsSize qtype (length r.content)

-- What follows the name of an answer.
abbrev fields : Answer → Bytes → Bytes
fields r more =
    r.kind.0
    ∷ r.kind.1
    ∷ r.class_.0
    ∷ r.class_.1
    ∷ r.ttl.0.0
    ∷ r.ttl.0.1
    ∷ r.ttl.1.0
    ∷ r.ttl.1.1
    ∷ r.size.0
    ∷ r.size.1
    ∷ (r.content ++ more)

abbrev pub answer_bytes : Answer → Bytes → Bytes
answer_bytes r more = r.owner ++ fields r more

abbrev pub answers_bytes : List Answer → Bytes → Bytes
answers_bytes [] more = more
answers_bytes (r ∷ rs) more = answer_bytes r (answers_bytes rs more)

-- A reply to a packet that was sent, which repeats its identifier and its question.
abbrev pub answer_to : Bytes → Header → Bytes → Bytes
answer_to sent h answers =
    byte_at 0 sent
    ∷ byte_at 1 sent
    ∷ h.flags_high
    ∷ h.flags_low
    ∷ h.questions.0
    ∷ h.questions.1
    ∷ h.answers.0
    ∷ h.answers.1
    ∷ h.authorities.0
    ∷ h.authorities.1
    ∷ h.additional.0
    ∷ h.additional.1
    ∷ (drop 12 sent ++ answers)

take-append : (xs ys : Bytes) → take (length xs) (xs ++ ys) ≡ xs
take-append [] ys = refl
take-append (x ∷ xs) ys = ap (λ l. x ∷ l) (take-append xs ys)

module _ (count fuel qtype : ℕ) (r : Answer) (more : Bytes) (a : IsAnswer r)
    (room : length r.owner ≤ fuel) where
  past_name : skip_name fuel (answer_bytes r more) ≡ fields r more
  past_name = form-IsName r.owner a.named fuel (fields r more) room

  read_address :
      IsAddress qtype r → read_answers (suc count) fuel qtype (answer_bytes r more) ≡ some r.content
  unfolding read_answers drop word_at byte_at is_asked
  read_address (k, c, z) =
      rw (form-not_empty r.owner (fields r more) a.named, past_name)
        (ground (arith, k, c, z, a.sized, length-append r.content more, take-append r.content more))

  not_asked : IsOther qtype r → is_asked qtype (fields r more) ≡ false
  unfolding is_asked word_at byte_at
  not_asked o = ground (arith, o)

  has_content : ltb (length (drop 10 (fields r more))) (word_at 8 (fields r more)) ≡ false
  unfolding drop word_at byte_at
  has_content = ground (arith, a.sized, length-append r.content more)

  past_content : drop (word_at 8 (fields r more)) (drop 10 (fields r more)) ≡ more
  unfolding word_at byte_at drop
  past_content = rw (← a.sized) (drop-append r.content more)

  read_other :
      IsOther qtype r
      → read_answers (suc count) fuel qtype (answer_bytes r more)
        ≡ read_answers count fuel qtype more
  unfolding read_answers
  read_other o =
      let long : ltb (length (fields r more)) 10 ≡ false = ground arith in
      rw
        (
          form-not_empty r.owner (fields r more) a.named,
          past_name,
          long,
          has_content,
          not_asked o,
          past_content,
        )
        refl

-- The answers before the one that is read, each of them no address of the type that is asked for.
abbrev pub AreOther : ℕ → List Answer → Type 0
AreOther qtype rs = All (λ r. IsAnswer r × IsOther qtype r) rs

read_all :
    (earlier : List Answer) (r : Answer) (more : Bytes) (count fuel qtype : ℕ)
    → AreOther qtype earlier
    → IsAnswer r
    → IsAddress qtype r
    → length earlier < count
    → length (answers_bytes earlier (answer_bytes r more)) ≤ fuel
    → read_answers count fuel qtype (answers_bytes earlier (answer_bytes r more)) ≡ some r.content
read_all earlier r more zero fuel qtype o a z c f = absurd (omega (arith, c))
read_all [] r more (suc count) fuel qtype o a z c f =
    read_address count fuel qtype r more a (omega (arith, f, length-append r.owner (fields r more)))
      z
read_all (e ∷ es) r more (suc count) fuel qtype ((b, o), os) a z c f =
    let after = answers_bytes es (answer_bytes r more) in
    let room = length-append e.owner (fields e after) in
    read_other count fuel qtype e after b (omega (arith, f, room)) o
    ∙ read_all es r more count fuel qtype os a z (omega (arith, c))
        (omega (arith, f, room, length-append e.content after))

open_reply :
    (resp tx_id : Bytes) (qtype : ℕ)
    → ltb (length resp) 12 ≡ false
    → text_eq (take 2 resp) tx_id ≡ true
    → byte_at 3 resp % 16 ≡ 0
    → read_reply tx_id qtype resp
      ≡ read_answers
          (word_at 6 resp)
          (length resp)
          qtype
          (drop 4 (skip_name (length resp) (drop 12 resp)))
unfolding read_reply
open_reply resp tx_id qtype e t r = ground (arith, e, t, r)

module _ (name : Bytes) (qtype : ℕ) (answers : Bytes) where
  -- What follows the header of a reply to a question.
  abbrev rest_of : Bytes
  rest_of = (name ++ (0 ∷ qtype ∷ 0 ∷ 1 ∷ [])) ++ answers

  abbrev room_for : length rest_of ≡ length name + 4 + length answers
  room_for = omega (
    arith,
    length-append (name ++ (0 ∷ qtype ∷ 0 ∷ 1 ∷ [])) answers,
    length-append name (0 ∷ qtype ∷ 0 ∷ 1 ∷ []),
  )

  past_question :
      (fuel : ℕ) → IsName name → length name ≤ fuel → drop 4 (skip_name fuel rest_of) ≡ answers
  unfolding drop
  past_question fuel is_name f =
      rw
        (
          append_assoc name (0 ∷ qtype ∷ 0 ∷ 1 ∷ []) answers,
          is_name fuel ((0 ∷ qtype ∷ 0 ∷ 1 ∷ []) ++ answers) f,
        )
        refl

read_named :
    (a b : ℕ) (name : Bytes) (h : Header) (qtype : ℕ) (earlier : List Answer) (r : Answer)
    (more : Bytes)
    → IsName name
    → h.flags_low % 16 ≡ 0
    → length earlier < word h.answers
    → AreOther qtype earlier
    → IsAnswer r
    → IsAddress qtype r
    → read_reply (a ∷ b ∷ []) qtype (
        answer_to
          (a ∷ b ∷ 1 ∷ 0 ∷ 0 ∷ 1 ∷ 0 ∷ 0 ∷ 0 ∷ 0 ∷ 0 ∷ 0 ∷ (name ++ (0 ∷ qtype ∷ 0 ∷ 1 ∷ [])))
          h
          (answers_bytes earlier (answer_bytes r more)))
      ≡ some r.content
unfolding read_reply drop byte_at word_at
read_named a b name h qtype earlier r more is_name f c o g z =
    let answers = answers_bytes earlier (answer_bytes r more) in
    let resp =
      answer_to (a ∷ b ∷ 1 ∷ 0 ∷ 0 ∷ 1 ∷ 0 ∷ 0 ∷ 0 ∷ 0 ∷ 0 ∷ 0 ∷ (name ++ (0 ∷ qtype ∷ 0 ∷ 1 ∷ [])))
        h answers in
    open_reply resp (a ∷ b ∷ []) qtype (ground arith) (text_eq_refl (a ∷ b ∷ [])) f
    ∙ ap (λ xs. read_answers (word h.answers) (length resp) qtype xs)
        (past_question name qtype answers (length resp) is_name
          (omega (arith, room_for name qtype answers)))
    ∙ read_all earlier r more (word h.answers) (length resp) qtype o g z c
        (omega (arith, room_for name qtype answers))

-- The client reads the answer to its own question: where the encoding gives every part of a name at least
-- one byte, take a reply without an error that repeats the identifier and the question of the packet that
-- was sent. Where some of its answers are no addresses of the type that was asked for and the next is one,
-- each under a name of any form, it is read as that address, whatever follows.
pub read_reply-query :
    (idna : Text → Option Bytes) (a b : ℕ) (host : Text) (qtype : ℕ) (sent : Bytes) (h : Header)
    (earlier : List Answer) (r : Answer) (more : Bytes)
    → HasBytes idna
    → query idna (a ∷ b ∷ []) host qtype ≡ some sent
    → h.flags_low % 16 ≡ 0
    → length earlier < word h.answers
    → AreOther qtype earlier
    → IsAnswer r
    → IsAddress qtype r
    → read_reply (a ∷ b ∷ []) qtype (answer_to sent h (answers_bytes earlier (answer_bytes r more)))
      ≡ some r.content
unfolding query packet
read_reply-query idna a b host qtype sent h earlier r more has_bytes q f c o g z =
    from_name (qname idna (split_from [] host)) (qname-IsName idna has_bytes (split_from [] host)) q
  where
    from_name :
        (name : Option Bytes)
        → ((n : Bytes) → name ≡ some n → IsName n)
        → packet (a ∷ b ∷ []) qtype name ≡ some sent
        → read_reply
            (a ∷ b ∷ [])
            qtype
            (answer_to sent h (answers_bytes earlier (answer_bytes r more)))
          ≡ some r.content
    from_name none n e = cc
    from_name (some name) n e =
        let same : a
              ∷ b
              ∷ 1
              ∷ 0
              ∷ 0
              ∷ 1
              ∷ 0
              ∷ 0
              ∷ 0
              ∷ 0
              ∷ 0
              ∷ 0
              ∷ (name ++ (0 ∷ qtype ∷ 0 ∷ 1 ∷ []))
            ≡ sent =
          cc in
        subst
          (λ (s : Bytes).
            read_reply (a ∷ b ∷ []) qtype
              (answer_to s h (answers_bytes earlier (answer_bytes r more)))
            ≡ some r.content)
          same (read_named a b name h qtype earlier r more (n name refl) f c o g z)

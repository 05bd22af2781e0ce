-- ===== src/Proxy/DnsExamples.antt =====
-- One question of the DNS client of proxy_server.py and its answer, with parts that encode as they are.
use aimili_gateway.Prelude.{◌≡◌, refl, Text, codes, Option, some, [], ◌∷◌, arith, inl}
use aimili_gateway.Prelude.Strings.{is_empty}
use aimili_gateway.Proxy.Dns.{Bytes, query, read_reply}
use aimili_gateway.Proxy.DnsName.{HasBytes, reference, labelled}
use aimili_gateway.Proxy.DnsReply.{
  Header, Answer, IsAnswer, answer_bytes, answers_bytes, answer_to, read_reply-query,
}

abbrev plain : Text → Option Bytes
plain s = some s

plain-HasBytes : HasBytes plain
unfolding is_empty
plain-HasBytes [] e = cc
plain-HasBytes (c ∷ s) e = λ q. cc

abbrev question : Bytes
question =
    18 ∷ 52 ∷ 1 ∷ 0 ∷ 0 ∷ 1 ∷ 0 ∷ 0 ∷ 0 ∷ 0 ∷ 0 ∷ 0 ∷ 3 ∷ 118 ∷ 112 ∷ 110 ∷ 2 ∷ 106 ∷ 112 ∷ 0 ∷ 0
    ∷ 1 ∷ 0 ∷ 1 ∷ []

asked : query plain (18 ∷ 52 ∷ []) (codes "vpn.jp") 1 ≡ some question
unfolding query is_empty
asked = refl

abbrev reply_header : Header
reply_header = record {
  flags_high = 129;
  flags_low = 128;
  questions = (0, 1);
  answers = (0, 2);
  authorities = (0, 0);
  additional = (0, 0);
}

-- Another name for it, and the address of that.
abbrev alias : Answer
alias = record {
  owner = 192 ∷ 12 ∷ [];
  kind = (0, 5);
  class_ = (0, 1);
  ttl = ((0, 0), (0, 60));
  size = (0, 4);
  content = 1 ∷ 97 ∷ 192 ∷ 16 ∷ [];
}

abbrev address : Answer
address = record {
  owner = 1 ∷ 97 ∷ 192 ∷ 16 ∷ [];
  kind = (0, 1);
  class_ = (0, 1);
  ttl = ((0, 0), (0, 60));
  size = (0, 4);
  content = 10 ∷ 8 ∷ 0 ∷ 1 ∷ [];
}

alias-IsAnswer : IsAnswer alias
alias-IsAnswer = record { named = reference 192 12 (omega arith); sized = refl }

address-IsAnswer : IsAnswer address
address-IsAnswer = record {
  named =
      labelled (97 ∷ []) (192 ∷ 16 ∷ []) (omega arith) (omega arith)
        (reference 192 16 (omega arith));
  sized = refl;
}

read_reply-query_example :
    read_reply
      (18 ∷ 52 ∷ [])
      1
      (answer_to question reply_header (answers_bytes (alias ∷ []) (answer_bytes address [])))
    ≡ some (10 ∷ 8 ∷ 0 ∷ 1 ∷ [])
read_reply-query_example =
    read_reply-query plain 18 52 (codes "vpn.jp") 1 question reply_header (alias ∷ []) address []
      plain-HasBytes asked refl (omega arith) ((alias-IsAnswer, inl (omega arith)), tt)
      address-IsAnswer (refl, refl, inl (refl, refl))

-- ===== src/Tests/Clients.antt =====
-- The agent store and the handler's transactions over an engine that is an association list.
use uldb.Prelude.{
  ℕ, ◌≡◌, List, [], ◌∷◌, ◌++◌, Option, some, none, Bool, true, ◌&&◌, refl, arith, All, nat_eq, leb,
  eqb, eqb_iff,
}
use uldb.Bytes.{Bytes, bytes_eq}
use uldb.Bytes.Utf8.{continues, is_utf8}
use uldb.Maps.{lookup, insert, remove, lookup-insert, lookup-remove}
use uldb.Maps.Sorted.{between}
use uldb.KeyValue.{KeyValue, Laws, Written, done, refused}
use uldb.AgentStore.{Codec, agent_prefix, load_payload, append_records, get_recent_records}
use uldb.AgentStore.Payloads.{load-append_records}
use uldb.Tx.Hamt.{Hamt}
use uldb.Tx.Hamt
use uldb.Tx.Session.{TxSession, put_op, delete_op, serializable, get_session}
use uldb.Server.Transactions.{UmpHandler, commit_tx}
use uldb.Server.Transactions.Commits.{commit_tx-read_set}
use uldb.Engine.{Engine}
use uldb.Engine.Client.{engine_client, engine-Laws}
use uldb.Tests.Inputs.{
  toy_bits, toy_hashes, toy_crc, key_a, key_b, key_c, one_key, value_one, value_two,
}

abbrev Table : Type 0
Table = List (Bytes × Bytes)

abbrev put_done : Bytes → Bytes → Table → Written Table
put_done k v e = done (insert k v e)

abbrev delete_done : Bytes → Table → Written Table
delete_done k e = done (remove k e)

abbrev read : Bytes → Table → Option Bytes
read k e = lookup k e

abbrev scan_of : Bytes → Bytes → Table → Table
scan_of s t e = between s t e

abbrev no_flush : Table → ℕ
no_flush e = 0

abbrev table : KeyValue Table
table = record {
  put = put_done;
  delete = delete_done;
  get = read;
  scan = scan_of;
  flush_count = no_flush;
}

abbrev written : Written Table → Table
written (done e) = e
written (refused e) = e

table-Laws : Laws table
table-Laws = record {
  put-grows = λ k v e e' h. omega arith;
  delete-grows = λ k e e' h. omega arith;
  get-put = λ k v j e e' h calm. ground (arith, h, lookup-insert k j v e);
  get-delete = λ k j e e' h calm. ground (arith, h, lookup-remove k j e);
}

-- A record is a letter, and the text of a payload is its letters.
abbrev text_of : ℕ → Bytes
text_of r = r ∷ []

abbrev step_of : ℕ → Bytes
step_of r = b'1' ∷ []

abbrev type_of : ℕ → Bytes
type_of r = b't' ∷ []

abbrev first_letter : Bytes → Option ℕ
first_letter [] = none
first_letter (b ∷ bytes) = some b

abbrev all_ascii : List ℕ → Bool
all_ascii [] = true
all_ascii (r ∷ rs) = leb r 0x7F && all_ascii rs

abbrev accepts : ℕ → List ℕ → Bool
accepts header rs = eqb header 0 && all_ascii rs

abbrev text : ℕ → List ℕ → Bytes
text header rs = rs

abbrev back : Bytes → Option (ℕ × List ℕ)
back bytes = some (0, bytes)

abbrev same_header : ℕ → ℕ → ℕ
same_header count header = header

abbrev letters : Codec ℕ ℕ
letters = record {
  step_text = step_of;
  type_text = type_of;
  id_text = text_of;
  encode_record = text_of;
  decode_record = first_letter;
  validate = accepts;
  encode = text;
  decode = back;
  default_header = 0;
  with_count = same_header;
}

continues-ascii : (rs : List ℕ) → all_ascii rs ≡ true → continues 0 0 0 rs ≡ true
unfolding continues
continues-ascii [] h = refl
continues-ascii (r ∷ rs) h =
    let low : leb r 0x7F ≡ true = ground (arith, h) in
    rw (low, continues) (continues-ascii rs (ground (arith, h)))

is_text : (header : ℕ) (rs : List ℕ) → accepts header rs ≡ true → is_utf8 rs ≡ true
unfolding is_utf8
is_text header rs h = continues-ascii rs (ground (arith, h))

decode-encode :
    (header : ℕ) (rs : List ℕ)
    → accepts header rs ≡ true
    → back (text header rs) ≡ some (header, rs)
decode-encode header rs h =
    let zeroed : header ≡ 0 = ground (arith, eqb_iff header 0, h) in rw zeroed refl

abbrev stored : Table
stored = (agent_prefix ++ key_a, b'x' ∷ []) ∷ []

abbrev appended : Table
appended = written (append_records table letters key_a (b'y' ∷ []) stored)

load-append_records_example :
    (load_payload table letters key_a appended ≡ some (0, b'x' ∷ b'y' ∷ []))
    × (get_recent_records table letters key_a 1 appended ≡ b'y' ∷ [])
unfolding append_records load_payload lookup is_utf8
load-append_records_example =
    load-append_records table table-Laws letters is_text decode-encode key_a 0 (b'x' ∷ [])
      (b'y' ∷ []) stored appended refl refl refl

-- The live trie is empty, or holds `a`.
abbrev no_trie : Table → Hamt
no_trie e = Hamt.empty

abbrev one_trie : Table → Hamt
one_trie e = one_key

-- A session that has read `a`, and deletes it after it has put `b`.
abbrev session : TxSession
session = record {
  tx_id = 1;
  isolation = serializable;
  snapshot = Hamt.empty;
  write_buffer = put_op key_b value_two ∷ delete_op key_a ∷ [];
  read_set = key_a ∷ [];
  begin_ts = 1;
}

abbrev handler : UmpHandler Table
handler = record {
  engine = (key_a, value_one) ∷ [];
  tx_mgr = record { sessions = (1, session) ∷ []; next_id = 2; next_ts = 2 };
}

-- Other threads do nothing before the check, and put `c` after it.
abbrev nothing : UmpHandler Table → UmpHandler Table
nothing h = h

abbrev put_c : UmpHandler Table → UmpHandler Table
put_c h = record h { engine = insert key_c value_one h.engine }

abbrev after_commit : Table
after_commit = (key_c, value_one) ∷ (key_b, value_two) ∷ []

commit_tx-read_set_example :
    All (λ k. Hamt.get k (no_trie handler.engine) ≡ Hamt.get k session.snapshot) session.read_set
unfolding commit_tx get_session lookup Hamt.get insert
commit_tx-read_set_example =
    commit_tx-read_set table no_trie nothing put_c 1 session handler 2 after_commit refl refl refl

-- The transaction has also read `b`, which has not changed.
abbrev reader : TxSession
reader = record session { read_set = key_b ∷ key_a ∷ [] }

abbrev reading : UmpHandler Table
reading = record handler { tx_mgr = record handler.tx_mgr { sessions = (1, reader) ∷ [] } }

abbrev accepted : Engine → Bool
accepted e = true

engine-Laws_example : Laws (engine_client toy_bits toy_hashes toy_crc accepted accepted)
engine-Laws_example = engine-Laws toy_bits toy_hashes toy_crc accepted accepted

-- ===== src/Examples/Environment.antt =====
-- A database as a list of pairs, and a codec that writes fields with their lengths: instances of
-- what the program uses of RocksDB and Protobuf.

use raft_distributed_consens.Prelude.{
  ℕ, zero, suc, List, [], ◌∷◌, ◌++◌, none, Bytes, ℤ, pos, negsuc, bytes_eq, bytes_eq_iff,
  if◌then◌else◌, length, ◌≡◌, ◌≢◌, refl, arith, ◌∙◌, ap,
}
use raft_distributed_consens.Messages.{
  LogEntry, CommandResult, RequestType, empty_entry, empty_result,
}
use raft_distributed_consens.External.{External, Write, put, delete, written, lookup, Distinct}

abbrev pub Pairs : Type 0
Pairs = List (Bytes × Bytes)

abbrev remove : Bytes → Pairs → Pairs
remove k [] = []
remove k ((j, v) ∷ d) = if bytes_eq j k then remove k d else (j, v) ∷ remove k d

abbrev pub write_pairs : Pairs → List Write → Pairs
write_pairs d [] = d
write_pairs d (put k v ∷ ops) = write_pairs ((k, v) ∷ remove k d) ops
write_pairs d (delete k ∷ ops) = write_pairs (remove k d) ops

-- Each key once, with its first value.
abbrev pub firsts : Pairs → Pairs
firsts [] = []
firsts ((k, v) ∷ d) = (k, v) ∷ remove k (firsts d)

lookup-remove :
    (j k : Bytes) (d : Pairs) → lookup k (remove j d) ≡ (if bytes_eq j k then none else lookup k d)
lookup-remove j k [] = ground arith
lookup-remove j k ((i, v) ∷ d) =
    ground (arith, lookup-remove j k d, bytes_eq_iff i j, bytes_eq_iff i k, bytes_eq_iff j k)

pub lookup-write_pairs :
    (d : Pairs) (ops : List Write) (k : Bytes)
    → lookup k (write_pairs d ops) ≡ written ops k (lookup k d)
lookup-write_pairs d [] k = refl
lookup-write_pairs d (put j v ∷ ops) k =
    lookup-write_pairs ((j, v) ∷ remove j d) ops k
    ∙ ap (written ops k) (ground (arith, lookup-remove j k d))
lookup-write_pairs d (delete j ∷ ops) k =
    lookup-write_pairs (remove j d) ops k ∙ ap (written ops k) (lookup-remove j k d)

pub lookup-firsts : (d : Pairs) (k : Bytes) → lookup k (firsts d) ≡ lookup k d
lookup-firsts [] k = refl
lookup-firsts ((j, v) ∷ d) k = ground (arith, lookup-remove j k (firsts d), lookup-firsts d k)

remove-Distinct : (k : Bytes) (d : Pairs) → Distinct d → Distinct (remove k d)
remove-Distinct k [] h = tt
remove-Distinct k ((j, v) ∷ d) h = ground (arith, lookup-remove k j d, remove-Distinct k d h.1)

pub firsts-Distinct : (d : Pairs) → Distinct (firsts d)
firsts-Distinct [] = tt
firsts-Distinct ((k, v) ∷ d) = (
  ground (arith, lookup-remove k k (firsts d), bytes_eq_iff k k),
  remove-Distinct k (firsts d) (firsts-Distinct d),
)

-- The first `n` bytes, and the rest.
abbrev split : ℕ → Bytes → Bytes × Bytes
split zero s = ([], s)
split (suc n) [] = ([], [])
split (suc n) (c ∷ s) = (c ∷ (split n s).0, (split n s).1)

split-append : (b s : Bytes) → split (length b) (b ++ s) ≡ (b, s)
split-append [] s = refl
split-append (c ∷ b) s = ap (λ (p : Bytes × Bytes). (c ∷ p.0, p.1)) (split-append b s)

abbrev kind : RequestType → ℕ
kind RequestType.get_balance = 0
kind RequestType.transfer = 1

abbrev kind_of : ℕ → RequestType
kind_of zero = RequestType.get_balance
kind_of (suc n) = RequestType.transfer

abbrev pub sign : ℤ → ℕ × ℕ
sign (pos n) = (0, n)
sign (negsuc n) = (1, n)

abbrev pub sign_of : ℕ → ℕ → ℤ
sign_of zero n = pos n
sign_of (suc m) n = negsuc n

abbrev pub print_entry : LogEntry → Bytes
print_entry e =
    e.term
    ∷ e.index
    ∷ kind e.command.type
    ∷ (sign e.command.amount).0
    ∷ (sign e.command.amount).1
    ∷ length e.command.request_id
    ∷ length e.command.sender_id
    ∷ (e.command.request_id ++ (e.command.sender_id ++ e.command.receiver_id))

abbrev pub read_entry : Bytes → LogEntry
read_entry (term ∷ index ∷ k ∷ s ∷ n ∷ r ∷ l ∷ text) = record {
  term = term;
  index = index;
  command = record {
    request_id = (split r text).0;
    type = kind_of k;
    sender_id = (split l (split r text).1).0;
    receiver_id = (split l (split r text).1).1;
    amount = sign_of s n;
  };
}
read_entry _ = empty_entry

kind_lem : (t : RequestType) → kind_of (kind t) ≡ t
kind_lem RequestType.get_balance = refl
kind_lem RequestType.transfer = refl

pub sign_lem : (z : ℤ) → sign_of (sign z).0 (sign z).1 ≡ z
sign_lem (pos n) = refl
sign_lem (negsuc n) = refl

pub read-print_entry : (e : LogEntry) → read_entry (print_entry e) ≡ e
read-print_entry e =
    rw (split-append e.command.request_id, split-append e.command.sender_id, kind_lem, sign_lem)
      refl

abbrev pub print_result : CommandResult → Bytes
print_result r = elim r.result_message [
  | [] ↦ elim r.executed_at_index [ zero ↦ [] | suc i ↦ 16 ∷ suc i ∷ [] ]
  | c ∷ m ↦ 10 ∷ r.executed_at_index ∷ c ∷ m
]

abbrev pub read_result : Bytes → CommandResult
read_result (tag ∷ i ∷ m) = record { result_message = m; executed_at_index = i }
read_result _ = empty_result

pub read-print_result :
    (m : Bytes) (i : ℕ)
    → read_result (print_result (record { result_message = m; executed_at_index = i }))
      ≡ record { result_message = m; executed_at_index = i }
read-print_result [] zero = refl
read-print_result [] (suc i) = refl
read-print_result (c ∷ m) i = refl

unfoldable pub print_result_tagged :
    (m : Bytes) (i : ℕ)
    → m ≢ []
    → (s : Bytes) × (print_result (record { result_message = m; executed_at_index = i }) ≡ 0x0A ∷ s)
print_result_tagged [] i h = absurd (h refl)
print_result_tagged (c ∷ m) i h = (i ∷ c ∷ m, refl)

instance abbrev pub environment : External Pairs
environment = record {
  rocks = record {
    get = λ d k. lookup k d;
    write = write_pairs;
    scan = firsts;
    get-write = lookup-write_pairs;
    lookup-scan = lookup-firsts;
    scan-Distinct = firsts-Distinct;
  };
  proto = record {
    serialize_entry = print_entry;
    parse_entry = read_entry;
    serialize_result = print_result;
    parse_result = read_result;
    parse-serialize_entry = read-print_entry;
    parse-serialize_result = λ r. read-print_result r.result_message r.executed_at_index;
    parse_result-nil = refl;
    serialize_result_tag = λ r. print_result_tagged r.result_message r.executed_at_index;
  };
}

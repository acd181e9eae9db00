-- ===== src/Dataplane/Ops/RoundTrip/Messages.antt =====
-- Every legacy operation of the data plane at once: its request and its response.
use sembazuru.Base.{◌≡◌, ok}
use sembazuru.Dataplane.Ops.Stat
use sembazuru.Dataplane.Ops.OpenRead
use sembazuru.Dataplane.Ops.Read
use sembazuru.Dataplane.Ops.DirList
use sembazuru.Dataplane.Ops.Has
use sembazuru.Dataplane.Ops.WriteBack
use sembazuru.Dataplane.Ops.Hello
use sembazuru.Dataplane.Ops.RoundTrip.Queries.{
  StatRequestFits, StatResponseFits, OpenReadRequestFits, OpenReadResponseFits, ReadRequestFits,
  ReadResponseFits, DirListRequestFits, DirListResponseFits, HasRequestFits, HasResponseFits,
  stat_round_trip, open_read_round_trip, read_round_trip, dir_list_round_trip, has_round_trip,
}
use sembazuru.Dataplane.Ops.RoundTrip.Session.{
  WriteBackRequestFits, WriteBackResponseFits, HelloRequestFits, HelloResponseFits,
  write_back_round_trip, hello_round_trip,
}

-- A request with a response.
pub data Exchange : Type 0 where
  stats : Stat.StatRequest → Stat.StatResponse → Exchange
  opens : OpenRead.OpenReadRequest → OpenRead.OpenReadResponse → Exchange
  reads : Read.ReadRequest → Read.ReadResponse → Exchange
  lists : DirList.DirListRequest → DirList.DirListResponse → Exchange
  asks : Has.HasRequest → Has.HasResponse → Exchange
  writes : WriteBack.WriteBackRequest → WriteBack.WriteBackResponse → Exchange
  greets : Hello.HelloRequest → Hello.HelloResponse → Exchange

abbrev pub ExchangeFits : Exchange → Type 0
ExchangeFits (stats q r) = StatRequestFits q × StatResponseFits r
ExchangeFits (opens q r) = OpenReadRequestFits q × OpenReadResponseFits r
ExchangeFits (reads q r) = ReadRequestFits q × ReadResponseFits r
ExchangeFits (lists q r) = DirListRequestFits q × DirListResponseFits r
ExchangeFits (asks q r) = HasRequestFits q × HasResponseFits r
ExchangeFits (writes q r) = WriteBackRequestFits q × WriteBackResponseFits r
ExchangeFits (greets q r) = HelloRequestFits q × HelloResponseFits r

abbrev pub ReadBack : Exchange → Type 0
ReadBack (stats q r) =
    (Stat.decode_request (Stat.encode_request q) ≡ ok q)
    × (Stat.decode_response (Stat.encode_response r) ≡ ok r)
ReadBack (opens q r) =
    (OpenRead.decode_request (OpenRead.encode_request q) ≡ ok q)
    × (OpenRead.decode_response (OpenRead.encode_response r) ≡ ok r)
ReadBack (reads q r) =
    (Read.decode_request (Read.encode_request q) ≡ ok q)
    × (Read.decode_response (Read.encode_response r) ≡ ok r)
ReadBack (lists q r) =
    (DirList.decode_request (DirList.encode_request q) ≡ ok q)
    × (DirList.decode_response (DirList.encode_response r) ≡ ok r)
ReadBack (asks q r) =
    (Has.decode_request (Has.encode_request q) ≡ ok q)
    × (Has.decode_response (Has.encode_response r) ≡ ok r)
ReadBack (writes q r) =
    (WriteBack.decode_request (WriteBack.encode_request q) ≡ ok q)
    × (WriteBack.decode_response (WriteBack.encode_response r) ≡ ok r)
ReadBack (greets q r) =
    (Hello.decode_request (Hello.encode_request q) ≡ ok q)
    × (Hello.decode_response (Hello.encode_response r) ≡ ok r)

-- The request and the response of each of the seven operations besides the metadata query are decoded as they were
-- encoded, when their strings are UTF-8, their strings and contents are of at most 64 MiB, and their numbers and counts
-- are in range.
pub exchange_round_trip : (x : Exchange) → ExchangeFits x → ReadBack x
exchange_round_trip (stats q r) (hq, hr) = stat_round_trip q r hq hr
exchange_round_trip (opens q r) (hq, hr) = open_read_round_trip q r hq hr
exchange_round_trip (reads q r) (hq, hr) = read_round_trip q r hq hr
exchange_round_trip (lists q r) (hq, hr) = dir_list_round_trip q r hq hr
exchange_round_trip (asks q r) (hq, hr) = has_round_trip q r hq hr
exchange_round_trip (writes q r) (hq, hr) = write_back_round_trip q r hq hr
exchange_round_trip (greets q r) (hq, hr) = hello_round_trip q r hq hr

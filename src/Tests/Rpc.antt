-- ===== src/Tests/Rpc.antt =====
-- Calls through the in-process client on the sample store.
use inbox.Prelude.{◌≡◌}
use inbox.Effect.{rethrow}
use inbox.Proto.Service.{ItemRequest}
use inbox.Rpc.Procedure.{Procedure}
use inbox.Rpc.Client.{call}
use inbox.Rpc.Local.{new_local_client, methods}
use inbox.Rpc.Routing.{call-new_local_client}
use inbox.Sample.Memory.{sample}
use inbox.Sample.Requests.{from_ann, stock}
use inbox.Sample.Wire.{wire, wire-ConnectLaws}
use inbox.Prelude.{some}

abbrev of_a : ItemRequest
of_a = record { identity = some from_ann; id = "a" }

call-new_local_client_example :
    call (new_local_client wire (methods sample 10 "c")) Procedure.claim_item of_a stock
    ≡ rethrow wire.sent_error (methods sample 10 "c" Procedure.claim_item of_a) stock
call-new_local_client_example =
    call-new_local_client wire (methods sample 10 "c") wire-ConnectLaws Procedure.claim_item of_a
      stock

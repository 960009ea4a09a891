-- ===== src/Lib.antt =====
-- A model of AlphaSOC Network Flight Simulator (flightsim), a Go program that generates network
-- traffic which looks malicious, so that a team can see whether its tools raise alerts. The command
-- `run` selects simulation modules by name and runs them one after the other, host by host. Two of
-- the modules copy random data to a server over SFTP, by a small client of their own; the others
-- mostly call network libraries.
--
-- Parts, and the files that model them:
--
-- * Utils/Marshal.antt is v2/utils/marshal.go: big-endian numbers and length-prefixed strings.
-- * Utils/Conn.antt is v2/utils/conn.go: the split of a transfer among several senders.
-- * Ssh/Fxp/Parser.antt and Ssh/Fxp/Packets.antt are v2/simulator/ssh/fxp/fxp.go: the field parser,
--   which keeps its first error, and the packets with `Marshal`, `Unmarshal` and `GetCode`.
-- * Ssh/Packet.antt is v2/simulator/ssh/packet.go: `MakeRawPacket`, its `Marshal`, `ReadPacket` and
--   the parsers of the responses. Ssh/Result.antt holds the errors as values.
-- * Ssh/Client.antt and Ssh/Transfer.antt are v2/simulator/ssh/client.go: the requests with
--   `ReadResp`, and `WriteRandom`.
-- * Ssh/Connect.antt is `NewClient` and `Teardown` of the same file, by what they open and close;
--   Ssh/Auth.antt is v2/simulator/ssh/auth.go, and Ssh/Scope.antt v2/simulator/ssh/scope.go.
-- * Simulator/SshTransfer.antt is v2/simulator/ssh-transfer.go and v2/simulator/ssh-exfil.go;
--   Simulator/SshTransfer/Schedule.antt is the goroutines of the former with their channel.
-- * Simulator/Connect.antt is v2/simulator/simulator.go: the errors that a simulation ignores, and the
--   simulations of a TCP connection and of a lookup, which others call.
-- * Simulator/Scan.antt, Simulator/Dga.antt, Simulator/Spambot.antt, Simulator/Tor.antt,
--   Simulator/Miner.antt and Simulator/Irc.antt are the files of those names in v2/simulator;
--   Simulator/Cleartext.antt is cleartext-protocol.go, Simulator/Telegram.antt telegram-bot.go,
--   Simulator/IcmpTunnel.antt tunnel-icmp.go, and Simulator/Lookups.antt tunnel-dns.go, oast.go and
--   hijack.go of the same directory.
-- * Utils/Net.antt is v2/utils/net.go: the address to bind to, and absolute names. Utils/Rand.antt is
--   v2/utils/rand.go.
-- * Wisdom.antt is v2/wisdom/wisdom.go: hosts from an API over HTTP.
-- * Cmd/Modules.antt, Cmd/Select.antt and Cmd/Run.antt are v2/cmd/run/run.go (with `printMsg` of
--   v2/cmd/run/print.go): the table of modules with `FormatHost`, the selection by name, and the
--   loops of `run`. Cmd/Command.antt is `RunCmd` and `getDefaultDNSIntf` of the same file, and
--   v2/main.go. Cmd/Table.antt and Cmd/Table/Methods.antt give `run` the methods of the modules in the
--   table. Cmd/Get.antt is v2/cmd/get/get.go. Cmd/Program.antt is both commands in v2/main.go, with the
--   texts of their errors, and Cmd/Output.antt the text that package run prints.
-- * Net.antt is what the program uses of Go's package net on texts.
-- * Prelude.antt and its children are shared; the files below a component's file prove its laws.
--   Tests.antt holds the concrete runs.
--
-- How the code is read:
--
-- * A byte is a number below 256, a Go string or byte slice a list of them, and a nil slice is empty.
--   Numbers are natural, and uint32 and uint64 arithmetic is taken modulo its power of two where the
--   code can reach it.
-- * Go's pair of a value and an error is `ok` or `err` of Ssh.Result.Result, or a pair with an option
--   where the code uses the value beside an error. A run-time panic is `panic`.
-- * A connection is a writer, given as the bytes sent so far and the failures of its next calls, and
--   a reader, given as the bytes that the server has still to send and the error behind them. What
--   the server says may be anything.
-- * The random generator, `bytesize.Parse`, `json.Unmarshal`, the HTTP client, the SSH connection and
--   the modules that `run` calls are parameters, and so are the answers of the network: a dial, a
--   lookup or a request gives what its argument says. `run` returns its events in order: lines printed,
--   calls of a module, and waits.
-- * The goroutines of `Simulate` share no state but the channel. A schedule is a sequence of steps: a
--   goroutine sends its response, crashes or tears its connection down, or the loop receives. In the
--   table of modules, the order in which the responses come is a parameter, and so is what each client
--   responds; a field of Cmd.Table.Environment says that the goroutines deliver it, so that no client
--   panics there. What panics in a client is in Ssh/Client.antt and Ssh/Transfer.antt.
-- * The state of the modules in the table is one record, which also holds the processes of Tor and the
--   ICMP sockets that `Init` of a module has opened and no `Cleanup` has closed. Connections that
--   `Simulate` opens are not in it; Simulator/Miner.antt has those of the miner.
--
-- Fuel: the loop of `WriteRandom` gets one round for each megabyte begun, and the loop of
-- `ComputeSenderSizes` one for each multiple of the least size; `out_of_fuel` and `none` stand for
-- more rounds than that. The loop of `printCol` gets one round for each element; `none` stands for
-- more, which zero columns need. The loops that run until a context expires get one round for each
-- lookup that is made before.
--
-- Not modelled: the three flag parsers, which are parameters that give what they read or the status
-- with which they exit; the texts of the usages of main and of the run command, and those of the get
-- command's welcome and farewell; where the lines that modules print of themselves come in the output
-- of `run` (the file's name of Ssh/Client.antt and the warning of Simulator/Telegram.antt); deadlines
-- and timeouts, but for the waits; that a panic in a goroutine of a client ends the loop of `run`; and
-- v2/vendor.
pub mod Prelude
pub mod Utils
pub mod Ssh
pub mod Net
pub mod Wisdom
pub mod Simulator
pub mod Cmd
pub mod Tests

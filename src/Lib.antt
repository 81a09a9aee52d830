-- ===== src/Lib.antt =====
-- SRT, the reliable transport over UDP of this repository (srt/srtcore), and the parts of it that
-- are modelled here.
--
-- SeqNo models CSeqNo (srt/srtcore/common.h), the circular arithmetic on 31-bit packet sequence
-- numbers on which every list and buffer below rests. SeqNo/Order has its laws; SeqNo/Unwrapped
-- reads sequence numbers as remainders of positions that do not wrap, and compares near ones. The
-- loss structures are stated over such positions.
--
-- AckWindow models CACKWindow (srt/srtcore/window.h, window.cpp). The array, its head and its tail
-- are the fields of a record; the clock is an argument. AckWindow/Records reads it as a queue of
-- records, AckWindow/Acknowledge does the search for an ACKACK.
--
-- FreshLoss models CRcvFreshLoss (srt/srtcore/list.h, list.cpp), a range of losses that is not yet
-- reported.
--
-- RcvLossList models CRcvLossList (srt/srtcore/list.h, list.cpp): an array of nodes, of which
-- those in use form a doubly linked list of ranges of sequence numbers. Removal has remove, branch
-- by branch, and Query the queries. RcvLossList/Ranges is the abstract list of intervals of
-- positions, and Repr says when an array represents it: which place a position has, how the nodes
-- are linked, that all other places are free. Insertion and the modules below Removal and Query
-- carry each operation over to the ranges. A use of the index or the sequence number -1, which
-- would be a fault, results in none.
--
-- SndLossList models CSndLossList (srt/srtcore/list.h, list.cpp), the sender's loss list, whose
-- nodes are linked forward alone. SndLossList has the nodes and the steps that the operations
-- share, Insertion has insert, Removal has removeUpTo and popLostSeq, Pop carries popLostSeq over
-- to the ranges of RcvLossList/Ranges, and First does removeUpTo as far as the first loss.
-- getLossLength is the field of the length.
--
-- TsbpdTime models CTsbpdTime (srt/srtcore/tsbpd_time.h, tsbpd_time.cpp) and DriftTracer
-- (srt/srtcore/utilities.h): the delivery times of packets from their 32-bit timestamps. Wrap has
-- the wrap check period, Drift the drift samples. Times are integers of microseconds without a
-- bound.
--
-- PktTimeWindow models CPktTimeWindow (srt/srtcore/window.h): the intervals between packets, and
-- the probing pairs. Keep says how long an interval stays, and what is measured. The estimates of
-- speed and bandwidth are left out, since they are floating-point arithmetic.
--
-- Packet models the message number field of a data packet's header (srt/srtcore/packet.h,
-- packet.cpp), with the bit fields of srt/srtcore/utilities.h. UnitQueue models the flags and the
-- count of CUnitQueue (srt/srtcore/queue.h, queue.cpp), as the receiver buffer changes them;
-- UnitQueue/Pool adds the blocks and getNextAvailUnit, Scan, Search and Find are about it, and
-- Count is about the count of taken units. A unit is a number, and its block is that number by the
-- size of a block; the outcome of an allocation is an argument. The search goes round the blocks,
-- one round more than there are blocks, since it may start within one.
--
-- SndUList models CSndUList (srt/srtcore/queue.h, queue.cpp), the sockets that are to send, as a
-- heap by time. The array is a function from places to nodes, m_iLastEntry + 1 the number of
-- entries, and a wake-up of a thread a count. Order has the heap order, Linked what the nodes know
-- of their places, Up and Down the two loops, and Insert, Remove and Schedule the operations. The
-- way up has as many rounds as entries, since each halves the place, and the way down too, since
-- each at least doubles it.
--
-- SndBuffer models CSndBuffer (srt/srtcore/buffer.h, buffer.cpp), the packets that are not yet
-- acknowledged, in a ring of linked blocks with pointers to the first, the current and the last
-- one. A block is a number, its data a list of bytes. SndBuffer has addBuffer, Read the reading of
-- packets, Release ackData and dropLateData, and File addBufferFromFile. Ring says how the blocks
-- are linked, and Holds which list of packets the buffer holds, and how many of them were read;
-- Start, Room, Message and Add are about new packets, Fill, Change and Current about the blocks
-- that are written and read, Sent and Rexmit about reading, Field about the message number field
-- as the packet's methods read it, Leave and Late about those that leave. The loop that grows the
-- ring has as many rounds as blocks are needed, and one more, since each adds a block at least;
-- readData has one more than there are packets. RateEstimator models CRateEstimator
-- (srt/srtcore/buffer.h, buffer.cpp), the input rate, which addBuffer updates. The averages of the
-- buffer's size are left out, since they are floating-point numbers.
--
-- GroupBackup models SendBackupCtx (srt/srtcore/group_backup.h, group_backup.cpp), the members of
-- a backup group and their states. The sockets' data are an argument, a function from pointers.
-- Counts has the counts and the search for a member, Members recordMemberState and
-- updateMemberState, Sorting the order, which std::sort is modelled by insertion for, and Runs any
-- sequence of calls.
--
-- RcvBuffer models CRcvBufferNew (srt/srtcore/buffer_rcv.h, buffer_rcv.cpp), the receiver buffer,
-- an array of entries that goes round. Position has updateNonreadPos, OutOfOrder the search for a
-- message to read out of order, and Insert, Drop, Read, Stream and Query the operations: insert;
-- dropUpTo, dropAll and dropMessage; readMessage; readBufferTo; and the queries. Valid says what
-- an entry of the window holds, Messages what whole messages are, and Invariant puts them
-- together; Advance has the moves of the start, Nonread the search for the end of the whole
-- messages, Range the test isInRange. The modules below the operations carry each of them over to
-- the window; those of Stream read it as a queue of bytes. A loop over the places is given as many
-- rounds as the array has places, or one more: each of them stops at the end of the window or at
-- an entry without a unit, and passes no place twice before. The loop of
-- updateFirstReadableOutOfOrder has no such bound, and results in none where it is not through
-- within as many rounds as places, though it may still end later; OutOfOrder/Ends is about that.
--
-- Base has the shared names: tests and lists over the native numbers, signed integers, steps round
-- a ring, fields of bits. A sequence number is a natural number up to 0x7FFFFFFF; an int that may
-- be negative is an integer of Base/Int; the loops over indices recur on the rounds that the
-- source's bounds allow. The walks through the nodes of a loss list, whose loops have no bound in
-- the source, recur on the number of places of the array and result in none beyond it; a
-- represented list has no more ranges than places, and the search back for a range passes each
-- place at most once.
--
-- Not modelled: threads, locks, clocks, sockets and logging, which are input and output; the C
-- code of haicrypt and its ciphers; and for now the control packets, the rest of the groups and
-- the connection's state machine.
pub mod Base
pub mod SeqNo
pub mod AckWindow
pub mod FreshLoss
pub mod RcvLossList
pub mod SndLossList
pub mod TsbpdTime
pub mod PktTimeWindow
pub mod Packet
pub mod UnitQueue
pub mod SndUList
pub mod RateEstimator
pub mod SndBuffer
pub mod GroupBackup
pub mod RcvBuffer

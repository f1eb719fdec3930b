-- ===== src/Lib.antt =====
-- The mt76 core of the MT7902 driver (src/ of the repository): models of its functions and what
-- they keep to.
--
-- Aggr models src/agg-rx.c: a block-ack session (struct mt76_rx_tid) is the record Aggr.Tid, a
-- frame Aggr.Skb; Aggr.reorder_locked, release_frames, release_head, check_release, bar_locked and
-- shutdown are the functions of the C file under the session's lock, and Aggr.Dev has those that
-- find the session (mt76_rx_aggr_reorder, _start, _stop). The window size is taken to divide 4096
-- and to lie between 2 and 2048, as the sizes that are negotiated do. Loops run on fuel: 4096 rounds
-- for release_frames, which is more than half the circle of sequence numbers, one round for each
-- slot in the others; the theorems show that each loop ends by its own test.
-- Mcu models src/mcu.c: the firmware download and the send, retry and reply loop, over the driver's
-- callbacks and the list of what the waits bring.
-- Dma models the transmit ring of src/dma.c: struct mt76_queue is the record Dma.Queue, whose
-- entries are a function of the index; Dma.add_buf, tx_cleanup and tx_queue_skb_raw are the functions
-- of the same names, mt76_dma_tx_cleanup_idx and mt76_queue_tx_complete (src/tx.c) are one step,
-- Dma.clean_entry. Dma.Pending reads the ring as a queue of entries. The loop of tx_cleanup runs on
-- one round for each entry that is queued; every round takes one off. Dma.Send is
-- mt76_dma_tx_queue_skb, its mappings and its error paths. Dma.Rx is the receive side: the same ring
-- as a queue of pages (Dma.Rx.Pages), filled, polled and drained; the loop of mt76_dma_rx_process
-- runs on two rounds more than there are pages, since each takes a page or is the last.
-- Token models the tokens of src/tx.c (mt76_token_consume, mt76_token_release,
-- __mt76_set_tx_blocked) and the wake-up in src/mt7902/mac.c; Token.Flow lets frames and reports
-- come in any order.
-- TxFree models the firmware's report of frames it is done with (mt7921_mac_tx_free of
-- src/mt7902/mac.c, with mt76_connac2_txwi_free of src/mt76_connac_mac.c) on the tokens of Token. Its
-- loop runs on 256 rounds, since its counter is a u8; what it asks of the rest of the driver is a
-- list of actions.
-- Recv models how src/mac80211.c takes a received frame to mac80211: mt76_rx and the assembly of
-- A-MSDUs, mt76_check_ccmp_pn with mt76_wcid_key_setup, and mt76_rx_complete up to the kernel's
-- lists. A frame is what these functions read of its status and header. Recv.Sta models
-- mt76_check_sta, without the airtime; what it tells mac80211 and the driver is a list of actions.
-- Tx models the frames that wait at a station (mt76_txq_schedule_pending of src/tx.c); the loop is
-- recursion on the list of frames.
-- Status models the frames of src/tx.c whose status is reported: mt76_tx_status_skb_add, _get and
-- _check, __mt76_tx_complete_skb, and mt76_connac2_mac_add_txs_skb of src/mt76_connac_mac.c. The
-- flags of struct mt76_tx_cb are Booleans, the packet ids of a station an idr (Kernel.Idr), and the
-- walk over them looks at each id below MT_PACKET_ID_MASK, where they all lie. Status.Account takes
-- these functions as steps in any order. Test-mode frames, rates and the count of frames outside
-- airtime fairness are left out.
-- Util models the polls of src/util.c, whose loop is recursion on the rounds that the timeout leaves.
-- Scan models src/scan.c: each run of the delayed work is Scan.scan_work, what it asks of the rest
-- of the driver is recorded as a list of actions, and the scan runs on two rounds for each channel
-- and two more.
-- Chan models the links of src/channel.c and remaining on a channel, with what mt76_hw_scan and
-- mt76_scan_complete do to links: phys, interfaces and contexts are numbers, the heap of
-- struct mt76_vif_link is a function from addresses, and allocation and the driver answer as the
-- record Chan.Env says. Chan.Exclusive takes them as steps in any order; a delayed work and its
-- cancellation are the step that the work makes.
-- Sar models src/mt792x_acpi_sar.c: the tables that the machine's firmware gives for the power of
-- ranges of frequencies. What the ACPI methods answer is the record Sar.Acpi; a table is the list of
-- its bytes, and a read beyond its end is a result of its own. The limits are those that
-- mt7921_set_tx_sar_pwr of src/mt7902/main.c sets, and mt76_get_sar_power of src/mac80211.c applies;
-- an s8 is a byte and an int a number below 2 ^ 32 (Common.Signed). Sar.Country is what the country
-- list and the flags say; a country's code is a number of two bytes.
-- Power models the limits of power in src/eeprom.c: mt76_get_rate_power_limits with all that it
-- calls. A device tree is the nodes that these functions look for, with the bytes of their
-- properties; a read outside a property gives no result. The loops are recursion on the rows.
-- Kernel holds what the driver takes from the kernel's headers, as parameters with laws
-- (Kernel.Seq, Kernel.Idr), and one choice of them that meets the laws, for the examples
-- (Kernel.Linux, Kernel.Table).
-- Common holds tests and list functions over the native numbers, a loop on fuel, arrays of
-- pointers that may be NULL, positions on a ring, and signed integers as their bits.
--
-- Not modelled: locking and RCU (each function is one step), the hardware registers beyond the read
-- index, the sources of the EEPROM's contents and the MAC address; the TLV messages of
-- src/mt76_connac_mcu.c and src/mt7902/mcu.c and the receive descriptors of src/mt7902/mac.c, which
-- are layouts of bytes that only the firmware gives a meaning; registration, survey and statistics
-- of src/mac80211.c, which hand data to the kernel; wireless Ethernet dispatch, which is built for
-- other hardware, and the code for the chips of MT76x02.
pub mod Common
pub mod Kernel
pub mod Aggr
pub mod Recv
pub mod Mcu
pub mod Dma
pub mod Token
pub mod TxFree
pub mod Tx
pub mod Status
pub mod Util
pub mod Scan
pub mod Chan
pub mod Sar
pub mod Power

-- ===== src/Lib.antt =====
-- The drivers of the dbox2 set-top box: of the DVB core the software demultiplexer, the device of
-- its filters, the front-end's tuning and the ring buffer; the messages of the conditional access
-- module, the queues of the AViA demultiplexer, the events for user space and the real time clock.
--
-- The parts, with the files of the repository that they model, are these.
-- The module Ringbuffer is dvb/drivers/media/dvb/dvb-core/dvb_ringbuffer.c and the macros of
-- dvb_ringbuffer.h. The record Ringbuffer is struct dvb_ringbuffer, and each function has the C
-- function's name without its prefix dvb_ringbuffer_. Copies to and from user space are a parameter
-- (Kernel.UserMemory).
-- The module Demux is dvb/drivers/media/dvb/dvb-core/dvb_demux.c. Bytes of a transport stream go
-- into Demux/Stream (dvb_dmx_swfilter, _204, _packets), which cuts them into packets;
-- Demux/Dispatch (dvb_dmx_swfilter_packet, _packet_type, _payload) gives each packet to the feeds
-- of its PID; Demux/Section (dvb_dmx_swfilter_section_packet, _section_feed) puts sections
-- together, and Demux/Filter (dvb_dmx_swfilter_sectionfilter, prepare_secfilters) tests them.
-- Demux/Reassembly gives a feed the packets of a section one after the other. Demux/Calls has the
-- semaphore, whose `up` stands before each return as in the source, and the arrays; Demux/TsFeed and
-- Demux/SecFeed have the calls that clients make on feeds and filters, Demux/Mutex and
-- Demux/Lifecycle what these leave of the semaphore and the list of feeds, Demux/Registry the demultiplexers, their users and their
-- front-ends. A pointer to a feed or a filter is its index in its array; the calls of the clients'
-- callbacks are a list of deliveries, and the callbacks' results, the CRC of the kernel and the
-- driver below are parameters.
-- The module Cam is cam/cam.c. The record Cam holds the queue, its indices and the semaphore;
-- cam_task, with the transfers on the I2C bus as a parameter, fills the queue, and cam_read_message
-- empties it.
--
-- The module Dmxdev is dvb/drivers/media/dvb/dvb-core/dmxdev.c, a client of the demultiplexer. Its
-- own file has the buffer between a filter and its reader (dvb_dmxdev_buffer_init, _write, _read
-- and dvb_dmxdev_set_buffer_size). Dmxdev/Filters has struct dmxdev_filter, its types and states,
-- and the operations of the demultiplexer below as a parameter; Dmxdev/Feeds stops and restarts a
-- feed and stops a filter, Dmxdev/Start is dvb_dmxdev_filter_start, Dmxdev/Device the callbacks,
-- the timer, open, release, poll and the ioctls, Dmxdev/SectionRead the read of a section filter.
-- Dmxdev/Steps puts the calls, deliveries and expiries in any order. The read's loop has fuel for
-- one round more than bytes are asked for; what happens while it waits is a parameter.
-- The module Frontend is dvb/drivers/media/dvb/dvb-core/dvb_frontend.c: the queue of events that
-- DVBFE_GET_EVENT reads (Frontend/Queue has its theorems), and in Frontend/Tune the tuning with
-- drift and bending, the rounds of the front-end's thread, and the ioctls. The driver of the
-- front-end is a parameter.
-- The module Avia is dvb/drivers/media/dvb/avia/avia_gt_dmx.c: the queues that the demultiplexer of
-- the AViA chips fills in memory. Avia has the record Queue (sAviaGtDmxQueue) with its reads,
-- writes and positions, Avia/Overflow the interrupt, Avia/Task avia_gt_dmx_bh_task, which looks for
-- a packet (resync_loop has fuel for each byte that waits), and Avia/Alloc the allocation.
-- The module Net is dvb/drivers/media/dvb/dvb-core/dvb_net.c, another client: dvb_net_sec, which
-- makes an Ethernet frame of a section, and the filter that dvb_net_filter_set asks for.
-- The module Event is event/event.c: the slots of the open files, the queue of each, and the read,
-- with the naps in which it waits and what is written in them as a parameter.
-- The module Clock is ds1307/ds1307.c: RTC_RD_TIME and RTC_SET_TIME, with the accesses to the
-- registers of the chip, whose transfers are a parameter (Clock/Chip has one that keeps what it is
-- told).
--
-- Common has the shared names and the lemmas on lists and memory; Circular the lemmas on circular
-- buffers that Ringbuffer, Cam, Dmxdev, Event, Frontend and Avia share; Kernel the error numbers
-- and the accesses to user memory.
--
-- Numbers are naturals, with the wrap-around of the unsigned C types written out where it can occur;
-- an `int` has no bounds, since its overflow is undefined; results of calls are integers. Memory is a list of bytes, and a write behind its end is lost. Loops run
-- on the list that they go over, or on fuel: the loop over the sections of a packet has fuel for
-- 188 rounds, and each round takes at least the three bytes of a section header; the loop that cuts
-- packets has a round for each byte, and a round of the front-end's thread is one step of it. A
-- wait for the semaphore is the result `hangs`, or `none` for the module.
--
-- Not modelled: spinlocks and wait queues, which guard the data and hold none; interrupts between
-- the steps of a call; the DVR device and the set-up of dmxdev.c; the feeds and ioctls of
-- dvb_net.c; the start, stop and clocks of avia_gt_dmx.c; the registration of front-ends and the
-- start and end of their thread; the detection of the clock chip and its proc entry; the firmware
-- and the registers of the conditional access module; the other drivers of the repository, most of
-- which write registers of chips.
pub mod Common
pub mod Circular
pub mod Kernel
pub mod Ringbuffer
pub mod Demux
pub mod Cam
pub mod Dmxdev
pub mod Event
pub mod Clock
pub mod Frontend
pub mod Avia
pub mod Net

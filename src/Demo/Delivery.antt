-- ===== src/Demo/Delivery.antt =====
-- `consumer_thread` of src/demo_single_process.cpp against the log of the queue.
use lock_free_spmc_queue_dis.Queue.{Queue}
use lock_free_spmc_queue_dis.Queue.Inv.{Inv}
use lock_free_spmc_queue_dis.Message.{Message}
use lock_free_spmc_queue_dis.Consumer.InOrder.{InOrder}
